-- ===== src/BlockTime/Passes.antt =====
-- What each of the three passes of `TimestampToBlockNumber` finds.
use spotted_network.Base.{
  ℕ, zero, suc, ◌+◌, ◌-◌, ◌≤◌, ◌<◌, ◌≡◌, refl, ◌⊎◌, inl, inr, arith, ltb, leb, ◌==◌, Bool-cases,
}
use spotted_network.Base.Outcome.{Reply, ok, handle, ◌>>=◌}
use spotted_network.Base.Finds.{Finds, Finds-bind}
use spotted_network.Node.{Node, Env, call, ticked}
use spotted_network.BlockTime.{
  decrease_blocks, Pass, first_pass, forward, backward, after_forward, fine_tune,
}
use spotted_network.BlockTime.Closest.{
  Closest, BeforeGenesis, low-Closest, high-Closest, settled, start,
}

module _ (env : Env) (chain timestamp current : ℕ) (time : ℕ → ℕ)
    (monotone : (j k : ℕ) → j ≤ k → time j ≤ time k)
    (blocks : (k tick : ℕ) → k ≤ current → env.block_time chain k tick ≡ Reply.value (time k))
    (small : current + 1 < 18446744073709551616) where
  abbrev pub Found : ℕ → Type 0
  Found b =
      (b ≤ current)
      × (Closest time current timestamp b ⊎ (b ≡ 0) × BeforeGenesis chain time current timestamp)

  -- A block and the time kept with it, which is stale after a jump to block 0.
  abbrev pub Near : ℕ × ℕ → Type 0
  Near (m, t) =
      (m ≤ current)
      × ((t ≡ time m) ⊎ (m ≡ 0) × (timestamp < t) × BeforeGenesis chain time current timestamp)

  abbrev Walked : Pass → Type 0
  Walked (Pass.done b) = Found b
  Walked (Pass.arrived m t) =
      (m ≤ current)
      × (((t ≡ time m) × ((timestamp ≤ t) ⊎ (m ≡ current)))
          ⊎ (m ≡ 0) × (timestamp < t) × BeforeGenesis chain time current timestamp)

  pub first_pass-Near :
      (fuel number : ℕ) (n : Node)
      → number < fuel
      → number ≤ current
      → Finds Near (first_pass env chain fuel timestamp number (time number) n).0
  unfolding first_pass call ◌>>=◌
  first_pass-Near zero number n enough known = ground arith
  first_pass-Near (suc fuel) number n enough known =
      let back : ℕ = decrease_blocks chain (time number - timestamp) in
      elim (Bool-cases (leb (time number) timestamp)) [
        | inl before ↦ ((number, time number), ground arith, (known, inl refl))
        | inr after ↦ elim (Bool-cases (back == 0)) [
          | inl stuck ↦ ((number, time number), ground arith, (known, inl refl))
          | inr moving ↦ elim (Bool-cases (leb number back)) [
            | inl past ↦ (
              (0, time number),
              ground arith,
              (omega arith, inr (refl, ground arith, (number, known, ground arith, ground arith))),
            )
            | inr inside ↦
                let (a, e, near) =
                  first_pass-Near fuel (number - back) (ticked n) (ground arith) (ground arith) in
                (a, ground (arith, e, blocks (number - back) n.tick (ground arith)), near)
          ]
        ]
      ]

  forward-Walked :
      (fuel number : ℕ) (n : Node)
      → current - number < fuel
      → number ≤ current
      → Finds Walked (forward env chain fuel timestamp current number (time number) n).0
  unfolding forward call handle
  forward-Walked zero number n enough known = ground arith
  forward-Walked (suc fuel) number n enough known =
      elim (Bool-cases (leb timestamp (time number))) [
        | inl reached ↦ (
          Pass.arrived number (time number),
          ground arith,
          (known, inl (refl, inl (ground arith))),
        )
        | inr before ↦ elim (Bool-cases (ltb current (number + 1))) [
          | inl last ↦ (
            Pass.arrived number (time number),
            ground arith,
            (known, inl (refl, inr (ground arith))),
          )
          | inr more ↦ elim (Bool-cases (ltb timestamp (time (number + 1)))) [
            | inr again ↦
                let (a, e, walked) =
                  forward-Walked fuel (number + 1) (ticked n) (ground arith) (ground arith) in
                (a, ground (arith, e, blocks (number + 1) n.tick (ground arith)), walked)
            | inl over ↦
                elim (Bool-cases (ltb (timestamp - time number) (time (number + 1) - timestamp))) [
                  | inl low ↦ (
                    Pass.done number,
                    ground (arith, blocks (number + 1) n.tick (ground arith)),
                    (
                      known,
                      inl (
                          low-Closest timestamp current time monotone number (number + 1)
                            (omega arith) (ground arith) (ground arith) (ground arith)),
                    ),
                  )
                  | inr high ↦ (
                    Pass.done (number + 1),
                    ground (arith, blocks (number + 1) n.tick (ground arith)),
                    (
                      ground arith,
                      inl (
                          high-Closest timestamp current time monotone number (number + 1)
                            (omega arith) (ground arith) (ground arith) (ground arith)),
                    ),
                  )
                ]
          ]
        ]
      ]

  backward-Found :
      (fuel number : ℕ) (n : Node)
      → number < fuel
      → number ≤ current
      → (timestamp ≤ time number) ⊎ (number ≡ current)
      → Finds Found (backward env chain fuel timestamp number (time number) n).0
  unfolding backward call handle
  backward-Found zero number n enough known side = ground arith
  backward-Found (suc fuel) zero n enough known side = elim (Bool-cases (leb (time 0) timestamp)) [
    | inl before ↦ (
      0,
      ground arith,
      (known, inl (settled timestamp current time monotone 0 (ground arith) side)),
    )
    | inr after ↦
        (0, ground arith, (known, inl (start timestamp current time monotone (ground arith))))
  ]
  backward-Found (suc fuel) (suc prev) n enough known side =
      let answer = blocks prev n.tick (omega arith) in
      elim (Bool-cases (leb (time (suc prev)) timestamp)) [
        | inl before ↦ (
          suc prev,
          ground arith,
          (known, inl (settled timestamp current time monotone (suc prev) (ground arith) side)),
        )
        | inr after ↦ elim (Bool-cases (ltb (time prev) timestamp)) [
          | inr again ↦
              let (a, e, found) =
                backward-Found fuel prev (ticked n) (ground arith) (ground arith)
                  (inl (ground arith)) in
              (a, ground (arith, e, answer), found)
          | inl over ↦
              elim (Bool-cases (ltb (timestamp - time prev) (time (suc prev) - timestamp))) [
                | inl low ↦ (
                  prev,
                  ground (arith, answer),
                  (
                    omega arith,
                    inl (
                        low-Closest timestamp current time monotone prev (suc prev) refl
                          (ground arith) (ground arith) (ground arith)),
                  ),
                )
                | inr high ↦ (
                  suc prev,
                  ground (arith, answer),
                  (
                    known,
                    inl (
                        high-Closest timestamp current time monotone prev (suc prev) refl
                          (ground arith) (ground arith) (ground arith)),
                  ),
                )
              ]
        ]
      ]

  stale :
      (m t : ℕ) (n : Node)
      → m ≡ 0
      → timestamp < t
      → (backward env chain (suc m) timestamp m t n).0 ≡ ok m
  unfolding backward handle
  stale m t n genesis late = ground arith

  waits :
      (m t : ℕ) (n : Node)
      → timestamp < t
      → (forward env chain (suc (current - m)) timestamp current m t n).0 ≡ ok (Pass.arrived m t)
  unfolding forward handle
  waits m t n late = ground arith

  after_forward-Found :
      (p : Pass) (n : Node) → Walked p → Finds Found (after_forward env chain timestamp p n).0
  unfolding after_forward ◌>>=◌
  after_forward-Found (Pass.done b) n found = (b, refl, found)
  after_forward-Found (Pass.arrived m t) n (known, inl (exact, side)) =
      rw exact (backward-Found (suc m) m n (omega arith) known (ground (arith, exact, side)))
  after_forward-Found (Pass.arrived m t) n (known, inr (genesis, late, jump)) =
      (m, stale m t n genesis late, (known, inr (genesis, jump)))

  pub fine_tune-Found :
      (near : ℕ × ℕ) (n : Node)
      → Near near
      → Finds Found (fine_tune env chain timestamp current near n).0
  unfolding fine_tune
  fine_tune-Found (m, t) n (known, inl exact) =
      Finds-bind Walked Found (forward env chain (suc (current - m)) timestamp current m t)
        (after_forward env chain timestamp) n
        (rw exact (forward-Walked (suc (current - m)) m n (omega arith) known)) after_forward-Found
  fine_tune-Found (m, t) n (known, inr (genesis, late, jump)) =
      Finds-bind Walked Found (forward env chain (suc (current - m)) timestamp current m t)
        (after_forward env chain timestamp) n
        (Pass.arrived m t, waits m t n late, (known, inr (genesis, late, jump))) after_forward-Found

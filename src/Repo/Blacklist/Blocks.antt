-- ===== src/Repo/Blacklist/Blocks.antt =====
-- When a peer is blocked: the count of its violations, and the end of its block.
use spotted_network.Base.{
  ℕ, ◌+◌, String, ◌≡◌, refl, sym, Bool, false, ◌&&◌, Option, none, some, inl, inr, [], ◌∷◌, ◌++◌,
  arith, str_eq, eq_iff, leb, Bool-cases, Option-cases, if◌then◌else◌,
}
use mathlib.Core.Path.{subst}
use spotted_network.Repo.Table.{find, update, delete, find-update, find-delete, find-insert}
use spotted_network.Repo.Blacklist.{
  Entry, IncrementViolationCountParams, Blacklist, entry_key, in_force, incremented, new_entry,
  increment_violation_count, is_blocked, unblock_node,
}

-- No peer has two rows: the primary key.
abbrev pub Unique : Blacklist → Type 0
Unique [] = Unit {0}
Unique (e ∷ rows) = (find entry_key e.peer_id rows ≡ none) × Unique rows

abbrev blocks : ℕ → Option Entry → Bool
blocks now none = false
blocks now (some e) = leb 3 e.violation_count && in_force now e.expires_at

no_row :
    (peer : String) (now : ℕ) (rows : Blacklist)
    → find entry_key peer rows ≡ none
    → is_blocked peer now rows ≡ false
unfolding find is_blocked
no_row peer now [] h = refl
no_row peer now (e ∷ rows) h = ground (arith, no_row peer now rows)

is_blocked-find :
    (peer : String) (now : ℕ) (rows : Blacklist)
    → Unique rows
    → is_blocked peer now rows ≡ blocks now (find entry_key peer rows)
unfolding find is_blocked
is_blocked-find peer now [] u = refl
is_blocked-find peer now (e ∷ rows) (new, u) =
    ground (arith, is_blocked-find peer now rows u, no_row peer now rows, eq_iff e.peer_id peer)

abbrev pub violations : Option Entry → ℕ
violations none = 0
violations (some e) = e.violation_count

module _ (p : IncrementViolationCountParams) (now : ℕ) (rows : Blacklist) where
  abbrev rows' : Blacklist
  rows' = (increment_violation_count p now rows).1

  abbrev merged : Option Entry → Entry
  merged none = new_entry p now
  merged (some e) = incremented p now e

  find_incremented :
      (peer : String)
      → find entry_key peer rows' ≡ (
          if str_eq p.peer_id peer
          then some (merged (find entry_key p.peer_id rows))
          else find entry_key peer rows)
  unfolding increment_violation_count
  find_incremented peer = elim (Option-cases (find entry_key p.peer_id rows)) [
    | inl new ↦ ground (arith, find-insert entry_key peer (new_entry p now) rows new)
    | inr (e, there) ↦ ground (
      arith,
      find-update entry_key p.peer_id peer (incremented p now) rows (λ r. refl),
      eq_iff p.peer_id peer,
    )
  ]

Unique-update :
    (k : String) (f : Entry → Entry) (rows : Blacklist)
    → ((e : Entry) → entry_key (f e) ≡ entry_key e)
    → Unique rows
    → Unique (update entry_key k f rows)
unfolding update
Unique-update k f [] h u = u
Unique-update k f (e ∷ rows) h (new, u) = (
  ground (
    arith,
    find-update entry_key k e.peer_id f rows h,
    find-update entry_key k (f e).peer_id f rows h,
    h e,
    new,
  ),
  Unique-update k f rows h u,
)

Unique-append :
    (rows : Blacklist) (e : Entry)
    → find entry_key e.peer_id rows ≡ none
    → Unique rows
    → Unique (rows ++ e ∷ [])
unfolding find
Unique-append [] e h u = (refl, tt)
Unique-append (x ∷ rows) e h (new, u) = (
  ground (
    arith,
    find-insert entry_key x.peer_id e rows,
    eq_iff x.peer_id e.peer_id,
    eq_iff e.peer_id x.peer_id,
  ),
  Unique-append rows e (ground arith) u,
)

Unique-delete : (k : String) (rows : Blacklist) → Unique rows → Unique (delete entry_key k rows)
unfolding delete
Unique-delete k [] u = u
Unique-delete k (e ∷ rows) (new, u) = elim (Bool-cases (str_eq e.peer_id k)) [
  | inl same ↦ rw same (Unique-delete k rows u)
  | inr other ↦
      rw other (ground (arith, find-delete entry_key k e.peer_id rows), Unique-delete k rows u)
]

increment_Unique :
    (p : IncrementViolationCountParams) (now : ℕ) (rows : Blacklist)
    → Unique rows
    → Unique (rows' p now rows)
unfolding increment_violation_count
increment_Unique p now rows u = elim (Option-cases (find entry_key p.peer_id rows)) [
  | inl new ↦
      let added : (rows' p now rows) ≡ rows ++ new_entry p now ∷ [] = ground arith in
      subst Unique (sym added) (Unique-append rows (new_entry p now) new u)
  | inr (e, there) ↦
      let changed : rows' p now rows ≡ update entry_key p.peer_id (incremented p now) rows =
        ground arith in
      subst Unique (sym changed) (Unique-update p.peer_id (incremented p now) rows (λ e. refl) u)
]

-- Counting violations of a peer keeps one row for each peer. Afterwards that peer is blocked exactly
-- if its earlier violations and the new ones are at least three and the new block has not expired, and every other peer
-- is blocked as before.
pub increment_violation_count_blocks :
    (p : IncrementViolationCountParams) (now : ℕ) (rows : Blacklist)
    → Unique rows
    → Unique (increment_violation_count p now rows).1
      × ((peer : String) (later : ℕ)
          → is_blocked peer later (increment_violation_count p now rows).1 ≡ (
              if str_eq p.peer_id peer
              then leb 3 (violations (find entry_key p.peer_id rows) + p.violation_count)
                && in_force later p.expires_at
              else is_blocked peer later rows))
increment_violation_count_blocks p now rows u = (
  increment_Unique p now rows u,
  λ peer later. ground (
    arith,
    is_blocked-find peer later rows u,
    is_blocked-find peer later (rows' p now rows) (increment_Unique p now rows u),
    find_incremented p now rows peer,
  ),
)

-- Unblocking a peer forgets its violations: it is not blocked at any time, and every other peer is
-- blocked as before.
pub unblock_node_frees :
    (peer : String) (rows : Blacklist)
    → Unique rows
    → (other : String) (now : ℕ)
    → is_blocked other now (unblock_node peer rows)
      ≡ (if str_eq peer other then false else is_blocked other now rows)
unfolding unblock_node
unblock_node_frees peer rows u other now = ground (
  arith,
  is_blocked-find other now rows u,
  is_blocked-find other now (delete entry_key peer rows) (Unique-delete peer rows u),
  find-delete entry_key peer other rows,
)

-- ===== src/Repo/Blacklist.antt =====
-- The table `blacklist`: pkg/repos/blacklist. A violation count is a number; the column's CHECK
-- keeps it from falling below 0. The cache in front of `IsBlocked` is in Gater.
pub mod Blocks
use mathlib.Core.List.{reverse}
use spotted_network.Base.{
  ℕ, zero, suc, ◌+◌, String, ◌≡◌, refl, Bool, true, false, ◌&&◌, not, Option, none, some, List, [],
  ◌∷◌, ◌++◌, str_eq, ltb, leb, if◌then◌else◌,
}
use spotted_network.Repo.Table.{find, update, delete, select, order_by}

-- `blacklist.Blacklist`
pub record Entry : Type 0 where
  pub peer_id : String
  pub violation_count : ℕ
  pub created_at : ℕ
  pub updated_at : ℕ
  pub expires_at : Option ℕ

pub record IncrementViolationCountParams : Type 0 where
  pub peer_id : String
  pub violation_count : ℕ
  pub expires_at : Option ℕ

abbrev pub Blacklist : Type 0
Blacklist = List Entry

abbrev pub entry_key : Entry → String
entry_key e = e.peer_id

-- `expires_at IS NULL OR expires_at > NOW()`
abbrev pub in_force : ℕ → Option ℕ → Bool
in_force now none = true
in_force now (some t) = ltb now t

-- `expires_at < NOW()`
abbrev expired : ℕ → Option ℕ → Bool
expired now none = false
expired now (some t) = ltb t now

-- `CleanExpiredBlocks`
unfoldable pub clean_expired_blocks : ℕ → Blacklist → Blacklist
clean_expired_blocks now = select entry_key (λ e. not (expired now e.expires_at))

abbrev pub incremented : IncrementViolationCountParams → ℕ → Entry → Entry
incremented p now e = record e {
  violation_count = e.violation_count + p.violation_count;
  expires_at = p.expires_at;
  updated_at = now;
}

abbrev pub new_entry : IncrementViolationCountParams → ℕ → Entry
new_entry p now = record {
  peer_id = p.peer_id;
  violation_count = p.violation_count;
  created_at = now;
  updated_at = now;
  expires_at = p.expires_at;
}

-- `IncrementViolationCount`: insert, or on a conflict of the peer add to the count
unfoldable pub increment_violation_count :
    IncrementViolationCountParams → ℕ → Blacklist → Option Entry × Blacklist
increment_violation_count p now rows =
    let rows' : Blacklist = elim (find entry_key p.peer_id rows) [
      | none ↦ rows ++ new_entry p now ∷ []
      | some _ ↦ update entry_key p.peer_id (incremented p now) rows
    ] in
    (find entry_key p.peer_id rows', rows')

-- `IsBlocked`: at the third violation, until the block expires
unfoldable pub is_blocked : String → ℕ → Blacklist → Bool
is_blocked peer now [] = false
is_blocked peer now (e ∷ rows) =
    let rest = is_blocked peer now rows in
    if str_eq e.peer_id peer && leb 3 e.violation_count && in_force now e.expires_at
    then true
    else rest

abbrev creation : Entry → ℕ
creation e = e.created_at

-- `LIMIT` and `OFFSET`
take : ℕ → Blacklist → Blacklist
take zero rows = []
take (suc n) [] = []
take (suc n) (e ∷ rows) = e ∷ take n rows

drop : ℕ → Blacklist → Blacklist
drop zero rows = rows
drop (suc n) [] = []
drop (suc n) (e ∷ rows) = drop n rows

-- `ListBlacklist`: newest first
unfoldable pub list_blacklist : ℕ → ℕ → ℕ → Blacklist → Blacklist
unfolding take drop
list_blacklist offset limit now rows = take limit (
    drop offset
      (reverse (order_by creation (select entry_key (λ e. in_force now e.expires_at) rows))))

-- `UnblockNode`
unfoldable pub unblock_node : String → Blacklist → Blacklist
unblock_node = delete entry_key

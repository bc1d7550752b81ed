-- ===== src/Peers/Disclosure.antt =====
-- What the peers of services/peers.py can be told of, after any calls.
use enishi.Prelude.{
  ℕ, ◌≤◌, ◌≡◌, refl, sym, ap, subst, Bool, true, false, not, ◌&&◌, Option, none, some, List, [],
  ◌∷◌, All, any, arith, leb, ◌==◌, if◌then◌else◌, if-intro, is_some,
}
use enishi.Prelude.Table.{Table, lookup, insert, lookup-insert}
use enishi.Errors.{Result, ok, raise_if-passed, >>=-returned}
use enishi.Remote.Types.{PeerStatus}
use enishi.Peers.{
  Sensitivity, rank_or, restricted_memory, schedule, skill, is_withheld, public_memory,
  internal_memory, private_memory, secret_memory, other_sensitivity, DisclosurePolicy, MemoryItem,
  Peers, get_peer, default_row, default_or_first, policy_or_default, register_peer,
  reject_non_exportable_sensitivity, put_default_disclosure_policy, get_disclosure_policy,
  put_disclosure_policy, memory_allowed_for_peer, filter_memories_for_peer, trust_peer,
  trusted_unless_blocked, block_peer,
}
use enishi.Peers.Histories.{
  Call, register, trust, block, read, put_default, put, or_same, after, run, or_same-keeps, ok-same,
  put-passed, put_default-passed,
}

-- Every policy that is stored is below what may not leave the node.
abbrev pub Exportable : DisclosurePolicy → Type 0
Exportable p = rank_or 4 p.max_sensitivity ≤ 2

-- What a peer may be told of: its type is allowed, a schedule or a skill only where that is shared,
-- and it is at most private and at most as sensitive as the policy says.
abbrev pub Shareable : DisclosurePolicy → MemoryItem → Type 0
Shareable p m =
    (any (λ t. m.memory_type == t) p.allowed_memory_types ≡ true)
    × (m.memory_type ≡ schedule → p.share_schedule ≡ true)
    × (m.memory_type ≡ skill → p.share_skills ≡ true)
    × (rank_or 4 m.sensitivity ≤ rank_or 1 p.max_sensitivity)
    × (rank_or 4 m.sensitivity ≤ 2)

passed_all :
    (w a b c d : Bool)
    → (if w then false else if a then false else if b then false else if not c then false else d)
      ≡ true
    → (a ≡ false) × (b ≡ false) × (c ≡ true) × (d ≡ true)
passed_all w a b c d h = ground arith

unless_shared : (t n : ℕ) (share : Bool) → (t == n && not share) ≡ false → t ≡ n → share ≡ true
unless_shared t n share h e = ground arith

rank_low : (s : Sensitivity) → rank_or 4 s ≤ 2 → rank_or 1 s ≤ 2
rank_low (other_sensitivity n) h = omega arith
rank_low public_memory h = h
rank_low internal_memory h = h
rank_low private_memory h = h
rank_low restricted_memory h = h
rank_low secret_memory h = h

allowed-Shareable :
    (p : DisclosurePolicy) (m : MemoryItem)
    → Exportable p
    → memory_allowed_for_peer p m ≡ true
    → Shareable p m
unfolding memory_allowed_for_peer
allowed-Shareable p m x h =
    let (a, b, c, d) =
      passed_all (is_withheld m.sensitivity) (m.memory_type == schedule && not p.share_schedule)
        (m.memory_type == skill && not p.share_skills)
        (any (λ t. m.memory_type == t) p.allowed_memory_types)
        (leb (rank_or 4 m.sensitivity) (rank_or 1 p.max_sensitivity)) h in
    let below : rank_or 4 m.sensitivity ≤ rank_or 1 p.max_sensitivity = ground arith in
    let low = rank_low p.max_sensitivity x in
    (
      c,
      unless_shared m.memory_type schedule p.share_schedule a,
      unless_shared m.memory_type skill p.share_skills b,
      below,
      omega arith,
    )

filter-Shareable :
    (p : DisclosurePolicy) (memories : List MemoryItem)
    → Exportable p
    → All (Shareable p) (filter_memories_for_peer p memories)
unfolding filter_memories_for_peer
filter-Shareable p [] x = tt
filter-Shareable p (m ∷ memories) x =
    if-intro (All (Shareable p)) (memory_allowed_for_peer p m)
      (λ e. (allowed-Shareable p m x e, filter-Shareable p memories x))
      (λ _. filter-Shareable p memories x)

abbrev IfThere : Option DisclosurePolicy → Type 0
IfThere none = Unit
IfThere (some p) = Exportable p

-- Every policy that the node has is exportable.
abbrev pub AllExportable : Peers → Type 0
AllExportable db = ((i : ℕ) → IfThere (lookup i db.policies)) × IfThere db.default_policy

exportable :
    (p : DisclosurePolicy)
    → reject_non_exportable_sensitivity p.max_sensitivity ≡ ok tt
    → Exportable p
unfolding reject_non_exportable_sensitivity
exportable p h = ground arith

put-AllExportable :
    (j : ℕ) (p : DisclosurePolicy) (db : Peers)
    → AllExportable db
    → Exportable p
    → AllExportable (record db { policies = insert j p db.policies })
put-AllExportable j p db (h, d) x = (
  λ i.
      subst IfThere (sym (lookup-insert j i p db.policies))
        (if-intro IfThere (j == i) (λ _. x) (λ _. h i)),
  d,
)

abbrev OnlyPeers : Peers → Peers → Type 0
OnlyPeers db next = (t : Table PeerStatus) × (record db { peers = t } ≡ next)

register-OnlyPeers : (j : ℕ) (db next : Peers) → register_peer j db ≡ ok next → OnlyPeers db next
unfolding register_peer
register-OnlyPeers j db next e =
    let (_, e1) = raise_if-passed (is_some (lookup j db.peers)) _ _ e in (_, ok-same e1)

trust-OnlyPeers : (j : ℕ) (db next : Peers) → trust_peer j db ≡ ok next → OnlyPeers db next
unfolding trust_peer
trust-OnlyPeers j db next e =
    let (s, _, e1) = >>=-returned (get_peer j db) _ e in
    let (t, _, e2) = >>=-returned (trusted_unless_blocked s) _ e1 in (_, ok-same e2)

block-OnlyPeers : (j : ℕ) (db next : Peers) → block_peer j db ≡ ok next → OnlyPeers db next
unfolding block_peer
block-OnlyPeers j db next e = let (s, _, e1) = >>=-returned (get_peer j db) _ e in (_, ok-same e1)

kept-AllExportable :
    (db : Peers) (result : Result Peers)
    → AllExportable db
    → ((next : Peers) → result ≡ ok next → OnlyPeers db next)
    → AllExportable (or_same db result)
kept-AllExportable db result h k =
    or_same-keeps AllExportable db result h (λ next e. subst AllExportable (k next e).1 h)

default_row-AllExportable :
    (d : Option DisclosurePolicy) (db : Peers)
    → db.default_policy ≡ d
    → AllExportable db
    → AllExportable (default_row db).1
default_row-AllExportable none db e (h, k) = (h, rw e (omega arith))
default_row-AllExportable (some p) db e (h, k) = (h, rw e (rw e at k))

read-AllExportable :
    (j : ℕ) (db : Peers) (o : Option PeerStatus) (q : Option DisclosurePolicy)
    → lookup j db.peers ≡ o
    → lookup j db.policies ≡ q
    → AllExportable db
    → AllExportable (after (read j) db)
unfolding get_disclosure_policy
read-AllExportable j db none q e f h = rw e h
read-AllExportable j db (some s) none e f h =
    rw e (rw f (default_row-AllExportable db.default_policy db refl h))
read-AllExportable j db (some s) (some p) e f h = rw e (rw f h)

after-AllExportable : (c : Call) (db : Peers) → AllExportable db → AllExportable (after c db)
after-AllExportable (register j) db h = kept-AllExportable db _ h (register-OnlyPeers j db)
after-AllExportable (trust j) db h = kept-AllExportable db _ h (trust-OnlyPeers j db)
after-AllExportable (block j) db h = kept-AllExportable db _ h (block-OnlyPeers j db)
after-AllExportable (read j) db h =
    read-AllExportable j db (lookup j db.peers) (lookup j db.policies) refl refl h
after-AllExportable (put_default p) db (h, d) =
    or_same-keeps AllExportable db (put_default_disclosure_policy p db) (h, d)
      (λ next e.
        let (c, same) = put_default-passed p db next e in
        subst AllExportable same (h, exportable p c))
after-AllExportable (put j p) db h =
    or_same-keeps AllExportable db (put_disclosure_policy j p db) h (λ next e.
      let (c, same) = put-passed j p db next e in
      subst AllExportable same (put-AllExportable j p db h (exportable p c)))

run-AllExportable :
    (calls : List Call) (db : Peers) → AllExportable db → AllExportable (run calls db)
run-AllExportable [] db h = h
run-AllExportable (c ∷ calls) db h =
    run-AllExportable calls (after c db) (after-AllExportable c db h)

default-Exportable : (d : Option DisclosurePolicy) → IfThere d → Exportable (default_or_first d)
default-Exportable none h = omega arith
default-Exportable (some p) h = h

chosen-Exportable :
    (db : Peers) (q : Option DisclosurePolicy)
    → IfThere q
    → IfThere db.default_policy
    → Exportable (policy_or_default db q).0
chosen-Exportable db none h d = default-Exportable db.default_policy d
chosen-Exportable db (some p) h d = h

read-Exportable :
    (i : ℕ) (db : Peers) {p : DisclosurePolicy} {next : Peers}
    → AllExportable db
    → get_disclosure_policy i db ≡ ok (p, next)
    → Exportable p
unfolding get_disclosure_policy
read-Exportable i db {p} {next} (h, d) e =
    let (s, _, e1) = >>=-returned (get_peer i db) _ e in
    subst Exportable (ap (λ (x : DisclosurePolicy × Peers). x.0) (ok-same e1))
      (chosen-Exportable db (lookup i db.policies) (h i) d)

-- Where the stored policies are exportable, as where none is stored: after any calls, of the memories
-- that are filtered by the policy the node then gives for a peer, each has an allowed type, is a
-- schedule or a skill only where the policy shares those, and is at most as sensitive as the policy
-- says, and neither restricted, nor secret, nor of an unknown sensitivity.
pub run-Shareable :
    (calls : List Call) (db : Peers) (i : ℕ) (p : DisclosurePolicy) (next : Peers)
    (memories : List MemoryItem)
    → AllExportable db
    → get_disclosure_policy i (run calls db) ≡ ok (p, next)
    → All (Shareable p) (filter_memories_for_peer p memories)
run-Shareable calls db i p next memories h e =
    filter-Shareable p memories (read-Exportable i (run calls db) (run-AllExportable calls db h) e)

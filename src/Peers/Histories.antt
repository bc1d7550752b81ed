-- ===== src/Peers/Histories.antt =====
-- What holds of peers and of what they may be told, after any calls of services/peers.py.
use enishi.Prelude.{
  ℕ, ◌≡◌, refl, ap, subst, ◌∙◌, true, Option, none, some, List, [], ◌∷◌, arith, ◌==◌, if-intro,
}
use enishi.Prelude.Table.{lookup, insert, lookup-insert}
use enishi.Errors.{Result, ok, err, >>=-returned}
use enishi.Remote.Types.{PeerStatus}
use enishi.Peers.{
  DisclosurePolicy, Peers, get_peer, register_peer, reject_non_exportable_sensitivity,
  put_default_disclosure_policy, get_disclosure_policy, put_disclosure_policy, trust_peer,
  block_peer,
}

pub data Call : Type 0 where
  register trust block read : ℕ → Call
  put_default : DisclosurePolicy → Call
  put : ℕ → DisclosurePolicy → Call

-- A call that raises leaves everything as it is.
abbrev pub or_same : Peers → Result Peers → Peers
or_same db (err c) = db
or_same db (ok next) = next

abbrev pub or_unread : Peers → Result (DisclosurePolicy × Peers) → Peers
or_unread db (err c) = db
or_unread db (ok (p, next)) = next

abbrev pub after : Call → Peers → Peers
after (register i) db = or_same db (register_peer i db)
after (trust i) db = or_same db (trust_peer i db)
after (block i) db = or_same db (block_peer i db)
after (read i) db = or_unread db (get_disclosure_policy i db)
after (put_default p) db = or_same db (put_default_disclosure_policy p db)
after (put i p) db = or_same db (put_disclosure_policy i p db)

abbrev pub run : List Call → Peers → Peers
run [] db = db
run (c ∷ calls) db = run calls (after c db)

abbrev StaysBlocked : ℕ → Peers → Type 0
StaysBlocked i db = lookup i db.peers ≡ some PeerStatus.blocked

same_key : (j i : ℕ) (db : Peers) → (j == i) ≡ true → lookup j db.peers ≡ lookup i db.peers
same_key j i db h = ap (λ k. lookup k db.peers) (ground arith)

written-StaysBlocked :
    (j i : ℕ) (s : PeerStatus) (db : Peers)
    → StaysBlocked i db
    → ((j == i) ≡ true → s ≡ PeerStatus.blocked)
    → lookup i (insert j s db.peers) ≡ some PeerStatus.blocked
written-StaysBlocked j i s db h k =
    lookup-insert j i s db.peers
    ∙ if-intro (λ o. o ≡ some PeerStatus.blocked) (j == i) (λ e. ap some (k e)) (λ _. h)

registered-StaysBlocked :
    (j i : ℕ) (db : Peers) (o : Option PeerStatus)
    → lookup j db.peers ≡ o
    → StaysBlocked i db
    → StaysBlocked i (after (register j) db)
unfolding register_peer
registered-StaysBlocked j i db none e h =
    rw e
      (written-StaysBlocked j i PeerStatus.pending db h (λ k. let same = same_key j i db k in cc))
registered-StaysBlocked j i db (some s) e h = rw e h

trusted-StaysBlocked :
    (j i : ℕ) (db : Peers) (o : Option PeerStatus)
    → lookup j db.peers ≡ o
    → StaysBlocked i db
    → StaysBlocked i (after (trust j) db)
unfolding trust_peer
trusted-StaysBlocked j i db none e h = rw e h
trusted-StaysBlocked j i db (some PeerStatus.blocked) e h = rw e h
trusted-StaysBlocked j i db (some PeerStatus.pending) e h =
    rw e
      (written-StaysBlocked j i PeerStatus.trusted db h (λ k. let same = same_key j i db k in cc))
trusted-StaysBlocked j i db (some PeerStatus.trusted) e h =
    rw e
      (written-StaysBlocked j i PeerStatus.trusted db h (λ k. let same = same_key j i db k in cc))

blocked-StaysBlocked :
    (j i : ℕ) (db : Peers) (o : Option PeerStatus)
    → lookup j db.peers ≡ o
    → StaysBlocked i db
    → StaysBlocked i (after (block j) db)
unfolding block_peer
blocked-StaysBlocked j i db none e h = rw e h
blocked-StaysBlocked j i db (some s) e h =
    rw e (written-StaysBlocked j i PeerStatus.blocked db h (λ k. refl))

pub or_same-keeps :
    (P : Peers → Type 0) (db : Peers) (result : Result Peers)
    → P db
    → ((next : Peers) → result ≡ ok next → P next)
    → P (or_same db result)
or_same-keeps P db (err c) h k = h
or_same-keeps P db (ok next) h k = k next refl

pub ok-same : {A : Type 0} {x y : A} → Result.ok x ≡ ok y → x ≡ y
ok-same h = cc

pub put-passed :
    (i : ℕ) (p : DisclosurePolicy) (db next : Peers)
    → put_disclosure_policy i p db ≡ ok next
    → (reject_non_exportable_sensitivity p.max_sensitivity ≡ ok tt)
      × (record db { policies = insert i p db.policies } ≡ next)
unfolding put_disclosure_policy
put-passed i p db next e =
    let (_, c, e1) = >>=-returned (reject_non_exportable_sensitivity p.max_sensitivity) _ e in
    let (_, _, e2) = >>=-returned (get_peer i db) _ e1 in (c, ok-same e2)

pub put_default-passed :
    (p : DisclosurePolicy) (db next : Peers)
    → put_default_disclosure_policy p db ≡ ok next
    → (reject_non_exportable_sensitivity p.max_sensitivity ≡ ok tt)
      × (record db { default_policy = some p } ≡ next)
unfolding put_default_disclosure_policy
put_default-passed p db next e =
    let (_, c, e1) = >>=-returned (reject_non_exportable_sensitivity p.max_sensitivity) _ e in
    (c, ok-same e1)

read-StaysBlocked :
    (j i : ℕ) (db : Peers) (o : Option PeerStatus) (q : Option DisclosurePolicy)
    → lookup j db.peers ≡ o
    → lookup j db.policies ≡ q
    → StaysBlocked i db
    → StaysBlocked i (after (read j) db)
unfolding get_disclosure_policy
read-StaysBlocked j i db none q e f h = rw e h
read-StaysBlocked j i db (some s) none e f h = rw e (rw f h)
read-StaysBlocked j i db (some s) (some p) e f h = rw e (rw f h)

after-StaysBlocked :
    (c : Call) (i : ℕ) (db : Peers) → StaysBlocked i db → StaysBlocked i (after c db)
after-StaysBlocked (register j) i db h = registered-StaysBlocked j i db (lookup j db.peers) refl h
after-StaysBlocked (trust j) i db h = trusted-StaysBlocked j i db (lookup j db.peers) refl h
after-StaysBlocked (block j) i db h = blocked-StaysBlocked j i db (lookup j db.peers) refl h
after-StaysBlocked (read j) i db h =
    read-StaysBlocked j i db (lookup j db.peers) (lookup j db.policies) refl refl h
after-StaysBlocked (put_default p) i db h =
    or_same-keeps (StaysBlocked i) db (put_default_disclosure_policy p db) h
      (λ next e. subst (StaysBlocked i) (put_default-passed p db next e).1 h)
after-StaysBlocked (put j p) i db h =
    or_same-keeps (StaysBlocked i) db (put_disclosure_policy j p db) h
      (λ next e. subst (StaysBlocked i) (put-passed j p db next e).1 h)

-- A peer that is blocked stays blocked through any calls of the service.
pub run-StaysBlocked :
    (calls : List Call) (db : Peers) (i : ℕ)
    → lookup i db.peers ≡ some PeerStatus.blocked
    → lookup i (run calls db).peers ≡ some PeerStatus.blocked
run-StaysBlocked [] db i h = h
run-StaysBlocked (c ∷ calls) db i h =
    run-StaysBlocked calls (after c db) i (after-StaysBlocked c i db h)

-- ===== src/Peers/Tests.antt =====
-- A node that trusts one peer with the owner's skills, and has blocked another.
use enishi.Prelude.{◌≡◌, refl, true, none, some, [], ◌∷◌, All, List}
use enishi.Prelude.Table.{lookup, insert}
use enishi.Remote.Types.{PeerStatus}
use enishi.Peers.{
  internal_memory, private_memory, secret_memory, skill, DisclosurePolicy, MemoryItem, Peers,
  register_peer, put_disclosure_policy, reject_non_exportable_sensitivity, get_disclosure_policy,
  trust_peer, filter_memories_for_peer,
}
use enishi.Peers.Histories.{Call, register, trust, put, run, run-StaysBlocked}
use enishi.Peers.Disclosure.{Shareable, run-Shareable}

abbrev no_peers : Peers
no_peers = record { peers = []; policies = []; default_policy = none }

abbrev skills : DisclosurePolicy
skills = record {
  allowed_memory_types = skill ∷ [];
  max_sensitivity = private_memory;
  share_schedule = true;
  share_skills = true;
}

abbrev calls : List Call
calls = register 1 ∷ trust 1 ∷ put 1 skills ∷ []

abbrev told : Peers
told = record {
  peers = (1, PeerStatus.trusted) ∷ [];
  policies = (1, skills) ∷ [];
  default_policy = none;
}

abbrev memories : List MemoryItem
memories =
    record { memory_type = skill; sensitivity = internal_memory }
    ∷ record { memory_type = skill; sensitivity = secret_memory }
    ∷ []

run-Shareable_example : All (Shareable skills) (filter_memories_for_peer skills memories)
unfolding register_peer trust_peer put_disclosure_policy get_disclosure_policy insert lookup
    reject_non_exportable_sensitivity
run-Shareable_example = run-Shareable calls no_peers 1 skills told memories (λ i. tt, tt) refl

abbrev blocking : Peers
blocking = record { peers = (2, PeerStatus.blocked) ∷ []; policies = []; default_policy = none }

run-StaysBlocked_example :
    lookup 2 (run (trust 2 ∷ register 2 ∷ []) blocking).peers ≡ some PeerStatus.blocked
unfolding lookup
run-StaysBlocked_example = run-StaysBlocked (trust 2 ∷ register 2 ∷ []) blocking 2 refl

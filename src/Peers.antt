-- ===== src/Peers.antt =====
-- services/local-core/enishi_core/services/peers.py: the peers of a node, whether they are trusted, and
-- which of the owner's memories each may be told of. Every call either raises before it writes or
-- commits. Keys, names and capabilities of peers are left out, and the audit log.
pub mod Histories
pub mod Disclosure
mod Tests
use enishi.Prelude.{
  ℕ, Bool, true, false, not, ◌&&◌, Option, none, some, List, [], is_some, leb, ◌==◌, keep, any,
  if◌then◌else◌,
}
use enishi.Prelude.Table.{Table, lookup, insert}
use enishi.Errors.{
  Result, Done, ok, err, invalid_state_transition, peer_not_found, disclosure_policy_invalid, ◌>>=◌,
  ◌>>◌, raise_if,
}
use enishi.Exec.{found}
use enishi.Remote.Types.{PeerStatus}

pub data Sensitivity : Type 0 where
  public_memory internal_memory private_memory restricted_memory secret_memory : Sensitivity
  other_sensitivity : ℕ → Sensitivity

-- `_SENSITIVITY_RANK.get(s, default)`
abbrev pub rank_or : ℕ → Sensitivity → ℕ
rank_or default public_memory = 0
rank_or default internal_memory = 1
rank_or default private_memory = 2
rank_or default restricted_memory = 3
rank_or default secret_memory = 4
rank_or default (other_sensitivity n) = default

-- The type of a memory is a text, by a number.
abbrev pub schedule : ℕ
schedule = 0

abbrev pub skill : ℕ
skill = 1

pub record DisclosurePolicy : Type 0 where
  pub allowed_memory_types : List ℕ
  pub max_sensitivity : Sensitivity
  pub share_schedule : Bool
  pub share_skills : Bool

pub record MemoryItem : Type 0 where
  pub memory_type : ℕ
  pub sensitivity : Sensitivity

pub record Peers : Type 0 where
  pub peers : Table PeerStatus
  pub policies : Table DisclosurePolicy
  pub default_policy : Option DisclosurePolicy

unfoldable pub register_peer : ℕ → Peers → Result Peers
register_peer agent_id db = do
  raise_if (is_some (lookup agent_id db.peers)) invalid_state_transition
  ok (record db { peers = insert agent_id PeerStatus.pending db.peers })

abbrev pub get_peer : ℕ → Peers → Result PeerStatus
get_peer agent_id db = found peer_not_found (lookup agent_id db.peers)

-- `_reject_non_exportable_sensitivity`
unfoldable pub reject_non_exportable_sensitivity : Sensitivity → Result Done
reject_non_exportable_sensitivity s =
    raise_if (leb (rank_or 4 restricted_memory) (rank_or 4 s)) disclosure_policy_invalid

abbrev pub first_default : DisclosurePolicy
first_default = record {
  allowed_memory_types = [];
  max_sensitivity = internal_memory;
  share_schedule = true;
  share_skills = false;
}

-- `_default_row`
abbrev pub default_or_first : Option DisclosurePolicy → DisclosurePolicy
default_or_first none = first_default
default_or_first (some p) = p

abbrev pub default_row : Peers → DisclosurePolicy × Peers
default_row db =
    let row = default_or_first db.default_policy in (row, record db { default_policy = some row })

unfoldable pub put_default_disclosure_policy : DisclosurePolicy → Peers → Result Peers
unfolding reject_non_exportable_sensitivity
put_default_disclosure_policy p db = do
  reject_non_exportable_sensitivity p.max_sensitivity
  ok (record db { default_policy = some p })

abbrev pub policy_or_default : Peers → Option DisclosurePolicy → DisclosurePolicy × Peers
policy_or_default db none = default_row db
policy_or_default db (some p) = (p, db)

unfoldable pub get_disclosure_policy : ℕ → Peers → Result (DisclosurePolicy × Peers)
get_disclosure_policy agent_id db = do
  _ ← get_peer agent_id db
  ok (policy_or_default db (lookup agent_id db.policies))

unfoldable pub put_disclosure_policy : ℕ → DisclosurePolicy → Peers → Result Peers
unfolding reject_non_exportable_sensitivity
put_disclosure_policy agent_id p db = do
  reject_non_exportable_sensitivity p.max_sensitivity
  _ ← get_peer agent_id db
  ok (record db { policies = insert agent_id p db.policies })

abbrev pub is_withheld : Sensitivity → Bool
is_withheld restricted_memory = true
is_withheld secret_memory = true
is_withheld _ = false

unfoldable pub memory_allowed_for_peer : DisclosurePolicy → MemoryItem → Bool
memory_allowed_for_peer policy memory =
    if is_withheld memory.sensitivity
    then false
    else if memory.memory_type == schedule && not policy.share_schedule
    then false
    else if memory.memory_type == skill && not policy.share_skills
    then false
    else if not (any (λ t. memory.memory_type == t) policy.allowed_memory_types)
    then false
    else leb (rank_or 4 memory.sensitivity) (rank_or 1 policy.max_sensitivity)

unfoldable pub filter_memories_for_peer : DisclosurePolicy → List MemoryItem → List MemoryItem
unfolding memory_allowed_for_peer
filter_memories_for_peer policy memories = keep (memory_allowed_for_peer policy) memories

abbrev pub trusted_unless_blocked : PeerStatus → Result PeerStatus
trusted_unless_blocked PeerStatus.blocked = err invalid_state_transition
trusted_unless_blocked _ = ok PeerStatus.trusted

unfoldable pub trust_peer : ℕ → Peers → Result Peers
trust_peer agent_id db = do
  status ← get_peer agent_id db
  next ← trusted_unless_blocked status
  ok (record db { peers = insert agent_id next db.peers })

unfoldable pub block_peer : ℕ → Peers → Result Peers
block_peer agent_id db = do
  _ ← get_peer agent_id db
  ok (record db { peers = insert agent_id PeerStatus.blocked db.peers })

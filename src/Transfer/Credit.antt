-- ===== src/Transfer/Credit.antt =====
-- `ConnectionCreditBudget` of native/src/transfer/frame_codec.cpp: the bytes and the streams
-- that the
-- transfers of one connection share. Each method holds the mutex, so it is one step. The branches
-- for a direction or a role that is neither of the two are left out.
pub mod Bounds
use file_sender_byte_spark.Prelude.{
  ℕ, zero, suc, ◌+◌, ◌-◌, Bool, true, false, ◌&&◌, ◌||◌, not, List, [], ◌∷◌, ◌++◌, length, any, leb,
  ltb, ◌==◌, ◌!=◌, if◌then◌else◌, min,
}

pub data CreditDirection : Type 0 where
  outbound inbound : CreditDirection

pub data Role : Type 0 where
  initiator responder : Role

pub data StreamOpenResult : Type 0 where
  opened capacity_rejected invalid : StreamOpenResult

-- The first `active_streams` elements of the array of active streams are a list.
pub record ConnectionCreditBudget : Type 0 where
  pub limit_bytes : ℕ
  pub reserved_outbound : ℕ
  pub reserved_inbound : ℕ
  pub maximum_streams : ℕ
  pub active_stream_ids : List ℕ
  pub local_role : Role
  pub next_local_stream_id : ℕ
  pub next_peer_stream_id : ℕ
  pub role_initialized : Bool
  pub local_stream_ids_exhausted : Bool
  pub peer_stream_ids_exhausted : Bool

abbrev pub maximum_connection_window : ℕ
maximum_connection_window = 67108864

unfoldable pub new_credit : ℕ → ℕ → ConnectionCreditBudget
new_credit limit_bytes maximum_streams = record {
  limit_bytes = min limit_bytes maximum_connection_window;
  reserved_outbound = 0;
  reserved_inbound = 0;
  maximum_streams = min maximum_streams 32;
  active_stream_ids = [];
  local_role = Role.initiator;
  next_local_stream_id = 0;
  next_peer_stream_id = 0;
  role_initialized = false;
  local_stream_ids_exhausted = false;
  peer_stream_ids_exhausted = false;
}

abbrev pub reserved_bytes : CreditDirection → ConnectionCreditBudget → ℕ
reserved_bytes CreditDirection.outbound c = c.reserved_outbound
reserved_bytes CreditDirection.inbound c = c.reserved_inbound

abbrev pub set_reserved : CreditDirection → ℕ → ConnectionCreditBudget → ConnectionCreditBudget
set_reserved CreditDirection.outbound bytes c = record c { reserved_outbound = bytes }
set_reserved CreditDirection.inbound bytes c = record c { reserved_inbound = bytes }

-- The subtractions and the addition stay in range: the tests before them say so.
unfoldable pub try_reserve_credit :
    CreditDirection → ℕ → ConnectionCreditBudget → ConnectionCreditBudget × Bool
try_reserve_credit direction bytes c =
    if ltb c.limit_bytes bytes || ltb (c.limit_bytes - bytes) (reserved_bytes direction c)
    then (c, false)
    else (set_reserved direction (reserved_bytes direction c + bytes) c, true)

unfoldable pub try_adjust :
    CreditDirection → ℕ → ℕ → ConnectionCreditBudget → ConnectionCreditBudget × Bool
try_adjust direction release_bytes reserve_bytes c =
    let after_release : ℕ = reserved_bytes direction c - release_bytes in
    if ltb (reserved_bytes direction c) release_bytes
    then (c, false)
    else if ltb c.limit_bytes reserve_bytes || ltb (c.limit_bytes - reserve_bytes) after_release
    then (c, false)
    else (set_reserved direction (after_release + reserve_bytes) c, true)

unfoldable pub release_credit :
    CreditDirection → ℕ → ConnectionCreditBudget → ConnectionCreditBudget
release_credit direction bytes c =
    if ltb (reserved_bytes direction c) bytes
    then c
    else set_reserved direction (reserved_bytes direction c - bytes) c

-- The role that the first call fixes, with the ids that the two sides start at.
unfoldable pub with_role : Role → ConnectionCreditBudget → ConnectionCreditBudget
with_role Role.initiator c = if c.role_initialized then c else record c {
  local_role = Role.initiator;
  next_local_stream_id = 1;
  next_peer_stream_id = 2;
  role_initialized = true;
}
with_role Role.responder c = if c.role_initialized then c else record c {
  local_role = Role.responder;
  next_local_stream_id = 2;
  next_peer_stream_id = 1;
  role_initialized = true;
}

abbrev pub same_role : Role → Role → Bool
same_role Role.initiator Role.initiator = true
same_role Role.responder Role.responder = true
same_role _ _ = false

-- `consume_id`, on the ids of this side or of the peer.
unfoldable pub consume_id : Bool → ConnectionCreditBudget → ConnectionCreditBudget
consume_id true c =
    if ltb 4294967293 c.next_local_stream_id
    then record c { local_stream_ids_exhausted = true }
    else record c { next_local_stream_id = c.next_local_stream_id + 2 }
consume_id false c =
    if ltb 4294967293 c.next_peer_stream_id
    then record c { peer_stream_ids_exhausted = true }
    else record c { next_peer_stream_id = c.next_peer_stream_id + 2 }

abbrev pub expected_stream_id : Bool → ConnectionCreditBudget → ℕ
expected_stream_id true c = c.next_local_stream_id
expected_stream_id false c = c.next_peer_stream_id

abbrev pub stream_ids_exhausted : Bool → ConnectionCreditBudget → Bool
stream_ids_exhausted true c = c.local_stream_ids_exhausted
stream_ids_exhausted false c = c.peer_stream_ids_exhausted

-- The part of `OpenStream` behind the role.
unfoldable pub open_expected :
    ℕ → Bool → ConnectionCreditBudget → ConnectionCreditBudget × StreamOpenResult
open_expected stream_id local_is_creator c =
    if stream_ids_exhausted local_is_creator c
      || stream_id != expected_stream_id local_is_creator c
      || any (λ id. id == stream_id) c.active_stream_ids
    then (c, StreamOpenResult.invalid)
    else if leb c.maximum_streams (length c.active_stream_ids)
    then (
      if local_is_creator then c else consume_id local_is_creator c,
      StreamOpenResult.capacity_rejected,
    )
    else (
      consume_id local_is_creator
          (record c { active_stream_ids = c.active_stream_ids ++ (stream_id ∷ []) }),
      StreamOpenResult.opened,
    )

unfoldable pub open_stream :
    ℕ → Bool → Role → ConnectionCreditBudget → ConnectionCreditBudget × StreamOpenResult
open_stream stream_id local_is_creator role c =
    if stream_id == 0
    then (c, StreamOpenResult.invalid)
    else if c.role_initialized && not (same_role c.local_role role)
    then (c, StreamOpenResult.invalid)
    else open_expected stream_id local_is_creator (with_role role c)

-- The last element, moved to the front.
unfoldable pub last_first : ℕ → List ℕ → List ℕ
last_first x [] = x ∷ []
last_first x (y ∷ ys) = elim (last_first y ys) [ [] ↦ x ∷ [] | last ∷ others ↦ last ∷ x ∷ others ]

-- The found element is overwritten with the last one, and the array is one shorter.
unfoldable pub remove_stream : ℕ → List ℕ → List ℕ
remove_stream id [] = []
remove_stream id (x ∷ xs) = if x == id then refill xs else x ∷ remove_stream id xs
  where
    refill : List ℕ → List ℕ
    refill [] = []
    refill (y ∷ ys) = last_first y ys

unfoldable pub close_stream : ℕ → ConnectionCreditBudget → ConnectionCreditBudget
close_stream stream_id c = record c {
  active_stream_ids = remove_stream stream_id c.active_stream_ids;
}

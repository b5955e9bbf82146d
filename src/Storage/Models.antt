-- ===== src/Storage/Models.antt =====
-- presidium-storage/src/models.rs: the records and the numbered enums of the local database. A text is
-- its UTF-8 bytes. An `i64` column is a natural number: ids, indices, sizes and times are not negative.
use presidium.Base.{ℕ, ◌≡◌, refl, Bool, Option, ◌==◌}
use presidium.Crypto.Constants.{Bytes}
use presidium.Base.{if◌then◌else◌}

pub record IdentityRecord : Type 0 where
  pub device_id : Bytes
  pub classical_seed : Bytes
  pub pq_seed : Bytes
  pub created_at : ℕ

pub data PreKeyKind : Type 0 where
  signed : PreKeyKind
  one_time : PreKeyKind

pub record PreKeyRecord : Type 0 where
  pub key_id : ℕ
  pub kind : PreKeyKind
  pub classical : Bytes
  pub pq : Bytes
  pub public_classical : Bytes
  pub public_pq : Bytes
  pub signature : Bytes
  pub created_at : ℕ

pub record ConversationRecord : Type 0 where
  pub id : Bytes
  pub peer_classical : Bytes
  pub peer_pq : Bytes
  pub is_group : Bool
  pub created_at : ℕ

pub data MessageDirection : Type 0 where
  incoming : MessageDirection
  outgoing : MessageDirection

pub data MessageStatus : Type 0 where
  pending : MessageStatus
  sent : MessageStatus
  delivered : MessageStatus
  read : MessageStatus
  failed : MessageStatus

pub record MessageRecord : Type 0 where
  pub id : ℕ
  pub conversation_id : Bytes
  pub message_id : Bytes
  pub sender_classical : Bytes
  pub ciphertext : Bytes
  pub header : Bytes
  pub content_type : ℕ
  pub direction : MessageDirection
  pub status : MessageStatus
  pub created_at : ℕ

pub record SenderKeyRecord : Type 0 where
  pub group_id : Bytes
  pub sender_classical : Bytes
  pub chain_key : Bytes
  pub message_index : ℕ
  pub key_id : ℕ
  pub updated_at : ℕ

pub data MediaKind : Type 0 where
  image : MediaKind
  audio : MediaKind
  video : MediaKind
  file : MediaKind

pub record MediaRecord : Type 0 where
  pub id : Bytes
  pub message_id : Option ℕ
  pub kind : MediaKind
  pub encryption_key : Bytes
  pub size : ℕ
  pub relative_path : Bytes
  pub created_at : ℕ

pub record DeviceRecord : Type 0 where
  pub device_id : Bytes
  pub classical : Bytes
  pub pq : Bytes
  pub last_seen : Option ℕ

-- `kind as i64` and its reading in `prekey_from_row`.
unfoldable pub prekey_kind_number : PreKeyKind → ℕ
prekey_kind_number signed = 0
prekey_kind_number one_time = 1

unfoldable pub prekey_kind_of : ℕ → PreKeyKind
prekey_kind_of n = if n == 0 then signed else one_time

-- `direction as i64` and `status as i64`, and their readings in `message_from_row`.
unfoldable pub direction_number : MessageDirection → ℕ
direction_number incoming = 0
direction_number outgoing = 1

unfoldable pub direction_of : ℕ → MessageDirection
direction_of n = if n == 0 then incoming else outgoing

unfoldable pub status_number : MessageStatus → ℕ
status_number pending = 0
status_number sent = 1
status_number delivered = 2
status_number read = 3
status_number failed = 4

unfoldable pub status_of : ℕ → MessageStatus
status_of n =
    if n == 0
    then pending
    else if n == 1
    then sent
    else if n == 2
    then delivered
    else if n == 3
    then read
    else failed

-- `record.kind as i64` of a media record and `media_kind_from_i64`.
unfoldable pub media_kind_number : MediaKind → ℕ
media_kind_number image = 0
media_kind_number audio = 1
media_kind_number video = 2
media_kind_number file = 3

unfoldable pub media_kind_from_i64 : ℕ → MediaKind
media_kind_from_i64 n =
    if n == 0 then image else if n == 1 then audio else if n == 2 then video else file

pub prekey_kind_of-prekey_kind_number : (k : PreKeyKind) → prekey_kind_of (prekey_kind_number k) ≡ k
unfolding prekey_kind_of prekey_kind_number
prekey_kind_of-prekey_kind_number signed = refl
prekey_kind_of-prekey_kind_number one_time = refl

pub direction_of-direction_number : (d : MessageDirection) → direction_of (direction_number d) ≡ d
unfolding direction_of direction_number
direction_of-direction_number incoming = refl
direction_of-direction_number outgoing = refl

pub status_of-status_number : (s : MessageStatus) → status_of (status_number s) ≡ s
unfolding status_of status_number
status_of-status_number pending = refl
status_of-status_number sent = refl
status_of-status_number delivered = refl
status_of-status_number read = refl
status_of-status_number failed = refl

pub media_kind_from_i64-media_kind_number :
    (k : MediaKind) → media_kind_from_i64 (media_kind_number k) ≡ k
unfolding media_kind_from_i64 media_kind_number
media_kind_from_i64-media_kind_number image = refl
media_kind_from_i64-media_kind_number audio = refl
media_kind_from_i64-media_kind_number video = refl
media_kind_from_i64-media_kind_number file = refl

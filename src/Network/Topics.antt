-- ===== src/Network/Topics.antt =====
-- presidium-network/src/topics.rs: the names of gossip topics. A topic is its string's bytes.
use presidium.Base.{◌≡◌, String, [], ◌∷◌, ◌++◌, Result, ok, err, arith}
use presidium.Crypto.Constants.{Bytes, ascii}

-- The errors that the crate raises: `NetworkError::InvalidAddress` and `NetworkError::NotRunning`.
pub data NetworkError : Type 0 where
  invalid_address : String → NetworkError
  not_running : NetworkError

-- `hex::encode`.
pub record Hex : Type 0 where
  pub hex_encode : Bytes → Bytes

-- Documented behaviour: the encoding determines the bytes.
pub record HexLaws (h : Hex) : Type 0 where
  pub injective : (a b : Bytes) → h.hex_encode a ≡ h.hex_encode b → a ≡ b

abbrev topic_prefix : Bytes
topic_prefix = ascii "/presidium"

module _ ⦃h : Hex⦄ where
  unfoldable pub topic_for : Bytes → Bytes → Result NetworkError Bytes
  topic_for kind [] = err (invalid_address "topic id must not be empty")
  topic_for kind (b ∷ id) =
      ok (topic_prefix ++ (ascii "/" ++ (kind ++ (ascii "/" ++ h.hex_encode (b ∷ id)))))

  unfoldable pub group_topic : Bytes → Result NetworkError Bytes
  group_topic conversation_id = topic_for (ascii "group") conversation_id

  unfoldable pub channel_topic : Bytes → Result NetworkError Bytes
  channel_topic conversation_id = topic_for (ascii "channel") conversation_id

  unfoldable pub stories_topic : Bytes → Result NetworkError Bytes
  stories_topic device_id = topic_for (ascii "stories") device_id

-- The three feeds that a topic can be for.
pub data Feed : Type 0 where
  group channel stories : Feed

unfoldable pub topic_of : ⦃h : Hex⦄ → Feed → Bytes → Result NetworkError Bytes
topic_of group id = group_topic id
topic_of channel id = channel_topic id
topic_of stories id = stories_topic id

-- A topic is of one feed and one id: two feeds never share a topic, nor do two ids of one feed.
pub topic_of_injective :
    ⦃h : Hex⦄ (laws : HexLaws h) (feed feed' : Feed) (id id' topic : Bytes)
    → topic_of feed id ≡ ok topic
    → topic_of feed' id' ≡ ok topic
    → (feed ≡ feed') × (id ≡ id')
unfolding topic_of group_topic channel_topic stories_topic topic_for
topic_of_injective laws feed feed' id id' topic e e' = ground (arith, laws.injective id id')

-- ===== src/Message.antt =====
-- api/proto/gatewayapi/v1/message.proto and pkg/codec: the messages on a link, and the collaborators
-- that handlers call: the codec, the encryptor, the cache, the business backend and the link.
use ws_gateway.Common.{ℕ, ◌≡◌, Bool, true, false, Option, none, some, if◌then◌else◌}
use ws_gateway.Common.Int.{ℤ}
use ws_gateway.Common.Keys.{Text, ◌=?◌, text_eq, int_eq}
use ws_gateway.Common.SyncMap.{SyncMap}
use ws_gateway.Errors.{Error}

-- A number outside the enumeration is a command, too.
pub data Command : Type 0 where
  unspecified heartbeat upstream_message upstream_ack downstream_message downstream_ack : Command
  redirect rate_limited : Command
  unknown : ℕ → Command

pub record Message : Type 0 where
  pub cmd : Command
  pub key : Text
  pub body : Text

-- The message that a backend pushes down.
pub record PushMessage : Type 0 where
  pub biz_id : ℤ
  pub receiver_id : ℤ
  pub key : Text
  pub body : Text

abbrev pub is_heartbeat : Command → Bool
is_heartbeat heartbeat = true
is_heartbeat _ = false

-- github.com/ecodeclub/ecache: `SetNX` stores a key that is absent, `Delete` removes one. Either may
-- fail (`none`, `true`) and then changes nothing. Entries do not expire between the calls at hand.
pub record Cache : Type 1 where
  pub Store : Type 0
  pub has : Text → Store → Bool
  pub set_nx : Text → Store → Option Bool × Store
  pub delete : Text → Store → Bool × Store
  pub set_nx-has :
      (k j : Text) (s : Store)
      → has j (set_nx k s).1
        ≡ (elim (set_nx k s).0 [ none ↦ has j s | some b ↦ if k =? j then true else has j s ])
  pub set_nx-new :
      (k : Text) (s : Store) (b : Bool)
      → (set_nx k s).0 ≡ some b
      → has k s ≡ (if b then false else true)
  pub delete-has :
      (k j : Text) (s : Store)
      → (delete k s).0 ≡ false
      → has j (delete k s).1 ≡ (if k =? j then false else has j s)

-- What the handler is given.
pub record Gateway : Type 1 where
  pub Link : Type 0
  pub Client : Type 0
  pub Response : Type 0
  -- All that the collaborators keep and that the handler does not read.
  pub World : Type 0
  pub link_id : Link → Text
  pub biz_of : Link → ℤ
  -- codec.Codec
  pub unmarshal : Text → Option Message
  pub marshal : Message → Option Text
  pub marshal_response : Response → Option Text
  -- encrypt.Encryptor; encrypting draws a nonce.
  pub encrypt : Text → World → Option Text × World
  pub decrypt : Text → Option Text
  -- gateway.Link
  pub send : Link → Text → World → Option Error × World
  pub update_active_time : Link → World → World
  pub close_link : Link → World → Option Error × World
  -- One call of `BackendServiceClient.OnReceive` with its timeout; `none` is an error.
  pub on_receive : Client → Text → Text → World → Option Response × World
  -- ecache.Cache
  pub cache : Cache
  -- syncx.Map[int64, BackendServiceClient] and the loader that fills a new one.
  pub clients : SyncMap ℤ Client
  pub load_clients : World → clients.Store × World
  -- The n-th answer of the retry strategy's `Next`; after `retry_limit` retries it says no.
  pub next_retry : ℕ → Bool
  pub retry_limit : ℕ
  pub retry_limit_law : next_retry retry_limit ≡ false

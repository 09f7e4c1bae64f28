-- ===== src/World/State.antt =====
-- The database, the effects, and what lies outside the repository: the environment
-- (packages/config/src/env.ts), Stellar's Horizon server, and the studios' servers.
use xgamefi.Prelude.{ℕ, ℤ, Bool, Option, List, Text}
use xgamefi.Schema.{
  Uuid, TxHash, Address, Currency, Asset, Studio, Shop, Item, Player, Promotion, Order, Ownership,
  Listing, Trade, LedgerEntry, Referral, Delivery, PaymentStatus, DeliveryStatus,
}

-- An item of a studio's feed (packages/shared/src/zod/catalogue.ts).
pub record RemoteItem : Type 0 where
  pub external_id : Text
  pub name : Text
  pub price : ℤ
  pub currency : Currency
  pub stock : Option ℕ

pub record Db : Type 0 where
  pub studios : List Studio
  pub shops : List Shop
  pub items : List Item
  pub players : List Player
  pub promotions : List Promotion
  pub orders : List Order
  pub ownerships : List Ownership
  pub listings : List Listing
  pub trades : List Trade
  pub ledger : List LedgerEntry
  pub referrals : List Referral
  pub deliveries : List Delivery

pub data Job : Type 0 where
  payout webhook refund_order refund_trade referral_reward p2p_transfer : Uuid → Job
  webhook_p2p mock_delivery : Uuid → Job

pub data Event : Type 0 where
  payment_event : Uuid → PaymentStatus → Event
  delivery_event : Uuid → DeliveryStatus → Event

-- What `sendPayment` asks of the network.
pub record Payment : Type 0 where
  pub destination : Address
  pub asset : Asset
  pub amount : ℤ
  pub memo : Option Text

pub record World : Type 0 where
  pub db : Db
  pub jobs : List Job
  pub sent : List Payment
  pub events : List Event
  pub rows : ℕ
  pub now : ℕ

-- The answer of Horizon to a request: a 404 is told from other errors.
pub data Lookup (A : Type 0) : Type 0 where
  found : A → Lookup A
  missing : Lookup A
  broken : Lookup A

pub record HorizonTx : Type 0 where
  pub hash : TxHash
  pub successful : Bool
  pub memo : Option Text

pub data Operation : Type 0 where
  payment : Address → Asset → ℤ → Operation
  other : Operation

-- A record of the receiving account's payment history.
pub record PaymentRecord : Type 0 where
  pub paging_token : ℕ
  pub transaction_hash : TxHash
  pub transaction_memo : Option Text

-- The request to a game to move an item: the address, the four fields of the JSON body, and the
-- secret and the time of its signature.
pub record TransferRequest : Type 0 where
  pub url : Text
  pub from_player_id : Uuid
  pub item_id : Uuid
  pub quantity : ℕ
  pub trade_id : Uuid
  pub secret : Text
  pub timestamp : ℕ

-- `post` is a signed POST through the SSRF guard to a studio: the status of the response, or
-- `none` for a network error, and `post_transfer` the POST of a transfer, signed as in Signatures.
-- `inventory` is the GET of a player's inventory: the quantity in a well-formed answer, and `feed`
-- the GET of its items, both `none` where the call throws. `builds` is whether the SDK can build the
-- unsigned transaction of a payment: it loads the source account from Horizon, which may throw.
-- `writes` is whether the database takes a write that follows a payment, and `queues` whether Redis
-- takes a job of a transfer: the calls behind both may throw.
pub record External : Type 0 where
  pub receiving_account : Address
  pub usd_asset_code : Text
  pub usd_asset_issuer : Address
  pub platform_fee_bps : ℕ
  pub webhook_max_attempts : ℕ
  pub referral_reward_amount : ℤ
  pub referral_reward_currency : Option Currency
  pub app_base_url : Text
  pub uuid_text : Uuid → Text
  pub fresh_id : ℕ → Uuid
  pub transaction : TxHash → Lookup HorizonTx
  pub operations : TxHash → Lookup (List Operation)
  pub payments_after : Option ℕ → Option (List PaymentRecord)
  pub submit : List Payment → Payment → Option TxHash
  pub builds : Payment → Bool
  pub post : Text → ℕ → Option ℕ
  pub post_transfer : TransferRequest → Option ℕ
  pub writes : World → Bool
  pub queues : World → Bool
  pub inventory : Text → Uuid → Uuid → Option ℕ
  pub feed : Text → Option (List RemoteItem)

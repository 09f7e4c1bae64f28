-- ===== src/Samples.antt =====
-- A small world at which the theorems are tried: one studio, two items, a referred player with a
-- discounted order, and a Horizon that knows one payment of it.
use xgamefi.Prelude.{ℕ, ◌+◌, pos, true, none, some, [], ◌∷◌, Text, codes}
use xgamefi.Schema.{
  Uuid, xlm, usdt, native, StudioStatus, IntegrationMode, PaymentStatus, Shop, DeliveryStatus,
  ReferralStatus, percent, Promotion, Studio, Item, Player, Order, Referral, Ownership, Listing,
  ListingStatus, Trade, TradeStatus,
}
use xgamefi.World.{Db, World, External, Lookup, found, HorizonTx, payment, RemoteItem}

abbrev pub studio : Studio
studio = record {
  id = 1;
  status = StudioStatus.active;
  platform_fee_bps = 250;
  payout_wallet_address = some 700;
  integration_mode = IntegrationMode.api_pull;
  api_base_url = some (codes "https://game.example");
  webhook_url = some (codes "https://game.example/hook");
  webhook_secret_hash = none;
  referral_reward_amount = none;
  referral_reward_currency = none;
}

abbrev pub sword : Item
sword = record {
  id = 11;
  studio_id = 1;
  external_id = codes "sword";
  name = codes "Sword";
  price_amount = pos 10000000;
  price_currency = xlm;
  stock = some 5;
  is_active = true;
  is_listed = true;
  synced_at = none;
}

abbrev pub tenth_off : Promotion
tenth_off = record {
  id = 31;
  studio_id = 1;
  code = some (codes "TEN");
  kind = percent;
  value = pos 100000000;
  currency = none;
  applies_to_item_ids = [];
  bundle_config = none;
  starts_at = none;
  ends_at = none;
  usage_limit = some 3;
  usage_count = pos 1;
  is_active = true;
}

abbrev pub order : Order
order = record {
  id = 21;
  studio_id = 1;
  item_id = 11;
  player_id = 41;
  quantity = 1;
  currency = xlm;
  gross_amount = pos 10000000;
  discount_amount = pos 1000000;
  platform_fee_amount = pos 225000;
  net_to_studio_amount = pos 8775000;
  promotion_id = some 31;
  referral_code_used = none;
  stellar_tx_hash = none;
  payment_status = PaymentStatus.pending;
  delivery_status = DeliveryStatus.pending;
  paid_at = none;
  delivered_at = none;
}

abbrev pub referral : Referral
referral = record {
  id = 51;
  referrer_player_id = 42;
  studio_id = none;
  referee_player_id = some 41;
  status = ReferralStatus.pending;
  qualifying_order_id = none;
  reward_amount = none;
  reward_currency = none;
  reward_tx_hash = none;
  qualified_at = none;
  rewarded_at = none;
}

abbrev pub player : ℕ → ℕ → Player
player i a = record { id = i; wallet_address = a }

abbrev pub listing : Listing
listing = record {
  id = 61;
  studio_id = 1;
  item_id = 11;
  seller_player_id = 42;
  price = pos 4000000;
  currency = xlm;
  status = ListingStatus.locked;
  locked_at = none;
}

abbrev pub trade : Trade
trade = record {
  id = 71;
  listing_id = 61;
  buyer_player_id = 41;
  seller_player_id = 42;
  price = pos 4000000;
  currency = xlm;
  platform_fee_amount = pos 100000;
  net_to_seller_amount = pos 3900000;
  escrow_tx_hash = none;
  payout_tx_hash = none;
  status = TradeStatus.escrow_pending;
  completed_at = none;
}

abbrev pub ownership : Ownership
ownership = record {
  player_id = 42;
  item_id = 11;
  studio_id = 1;
  quantity = pos 2;
  locked_for_listing_id = some 61;
}

abbrev pub shop : Shop
shop = record {
  studio_id = 1;
  layout = some (record { title = codes "All"; item_ids = 11 ∷ [] } ∷ []);
  draft_layout = none;
}

abbrev pub db : Db
db = record {
  studios = studio ∷ [];
  shops = shop ∷ [];
  items = sword ∷ [];
  players = player 41 801 ∷ player 42 802 ∷ [];
  promotions = tenth_off ∷ [];
  orders = order ∷ [];
  ownerships = ownership ∷ [];
  listings = listing ∷ [];
  trades = trade ∷ [];
  ledger = [];
  referrals = referral ∷ [];
  deliveries = [];
}

abbrev pub world : World
world = record { db = db; jobs = []; sent = []; events = []; rows = 5; now = 1000 }

-- An id as text: 36 bytes, as a UUID has.
abbrev pub id_text : Uuid → Text
id_text i = (i + 100) ∷ codes "bcdefgh-abcd-abcd-abcd-abcdefghijkl"

abbrev pub id_memo : Uuid → Text
id_memo i = (i + 100) ∷ codes "bcdefgh-abcd-abcd-abcd-abcd"

-- The transaction 900 + i pays the order or trade i.
abbrev pub paid_by : ℕ → Uuid → ℕ → Lookup HorizonTx
paid_by h i g = found (record { hash = g; successful = true; memo = some (id_memo i) })

-- What the studio's server sells.
abbrev pub shield : RemoteItem
shield = record {
  external_id = codes "shield";
  name = codes "Shield";
  price = pos 20000000;
  currency = usdt;
  stock = none;
}

abbrev pub external : External
external = record {
  receiving_account = 500;
  usd_asset_code = codes "USDC";
  usd_asset_issuer = 600;
  platform_fee_bps = 250;
  webhook_max_attempts = 5;
  referral_reward_amount = pos 1000000;
  referral_reward_currency = none;
  app_base_url = codes "https://app.example/";
  uuid_text = id_text;
  fresh_id = λ n. n + 1000;
  transaction = λ h. paid_by h 21 h;
  operations = λ h. found (payment 500 native (pos 9000000) ∷ []);
  payments_after = λ c. some [];
  submit = λ sent p. some 333;
  builds = λ p. true;
  post = λ url n. some 200;
  post_transfer = λ r. some 200;
  writes = λ w. true;
  queues = λ w. true;
  inventory = λ url p i. some 2;
  feed = λ url. some (shield ∷ []);
}

-- The transaction 900 + i pays the trade 71.
abbrev pub external_trade : External
external_trade = record external { transaction = λ h. paid_by h 71 h }

-- After the payment of the order.
abbrev pub paid_order : Order
paid_order = record order {
  payment_status = PaymentStatus.paid;
  stellar_tx_hash = some 921;
  paid_at = some 1000;
}

abbrev pub world_with : Order → World
world_with o = record world { db = record db { orders = o ∷ [] } }

-- While the item of the trade waits for the game.
abbrev pub world_escrow : World
world_escrow = record world {
  db = record db { trades = record trade { status = TradeStatus.paid } ∷ [] };
}

abbrev pub world_qualified : World
world_qualified = record world {
  db = record db { referrals = record referral { status = ReferralStatus.qualified } ∷ [] };
}

-- ===== src/Settings.antt =====
-- packages/shared/src/settings.ts: the one row of the platform's settings, which the first reading
-- creates from the environment.
use xgamefi.Prelude.{ℕ, ◌≡◌, refl, Option, none, some, Text, codes, text_eq, if◌then◌else◌, or_else}
use xgamefi.Schema.{Address}
use xgamefi.Routes.StudioPatch.{Change, kept_null, over}

pub data Network : Type 0 where
  testnet pubnet : Network

-- The row; the network is a text in the database.
pub record SettingRow : Type 0 where
  pub default_fee_bps : ℕ
  pub receiving_account : Address
  pub payout_signer_public : Option Address
  pub usd_asset_code : Text
  pub usd_asset_issuer : Option Address
  pub network : Text

pub record PlatformSettings : Type 0 where
  pub default_fee_bps : ℕ
  pub receiving_account : Address
  pub payout_signer_public : Option Address
  pub usd_asset_code : Text
  pub usd_asset_issuer : Option Address
  pub network : Network

pub record SettingsPatch : Type 0 where
  pub default_fee_bps : Option ℕ
  pub receiving_account : Option Address
  pub payout_signer_public : Change Address
  pub usd_asset_code : Option Text
  pub usd_asset_issuer : Change Address
  pub network : Option Network

-- What the environment gives.
pub record Env : Type 0 where
  pub platform_fee_bps : ℕ
  pub stellar_receiving_account : Address
  pub stellar_usd_asset_code : Text
  pub stellar_usd_asset_issuer : Option Address
  pub stellar_network : Network

abbrev pub network_text : Network → Text
network_text testnet = codes "testnet"
network_text pubnet = codes "pubnet"

abbrev pub to_settings : SettingRow → PlatformSettings
to_settings row = record {
  default_fee_bps = row.default_fee_bps;
  receiving_account = row.receiving_account;
  payout_signer_public = row.payout_signer_public;
  usd_asset_code = row.usd_asset_code;
  usd_asset_issuer = row.usd_asset_issuer;
  network = if text_eq row.network (codes "pubnet") then pubnet else testnet;
}

abbrev pub created_row : Env → SettingRow
created_row e = record {
  default_fee_bps = e.platform_fee_bps;
  receiving_account = e.stellar_receiving_account;
  payout_signer_public = none;
  usd_asset_code = e.stellar_usd_asset_code;
  usd_asset_issuer = e.stellar_usd_asset_issuer;
  network = network_text e.stellar_network;
}

unfoldable pub get_platform_settings :
    Env → Option SettingRow → PlatformSettings × Option SettingRow
get_platform_settings e row = let r = or_else row (created_row e) in (to_settings r, some r)

abbrev pub network_over : Option Network → Text → Text
network_over none old = old
network_over (some n) old = network_text n

-- A key that the patch lacks leaves the column, and null is written where the column has it.
abbrev pub patched : SettingsPatch → SettingRow → SettingRow
patched p row = record {
  default_fee_bps = over p.default_fee_bps row.default_fee_bps;
  receiving_account = over p.receiving_account row.receiving_account;
  payout_signer_public = kept_null p.payout_signer_public row.payout_signer_public;
  usd_asset_code = over p.usd_asset_code row.usd_asset_code;
  usd_asset_issuer = kept_null p.usd_asset_issuer row.usd_asset_issuer;
  network = network_over p.network row.network;
}

unfoldable pub update_platform_settings :
    Env → SettingsPatch → Option SettingRow → PlatformSettings × Option SettingRow
unfolding get_platform_settings
update_platform_settings e p row =
    let r = patched p (or_else (get_platform_settings e row).1 (created_row e)) in
    (to_settings r, some r)

-- What an update answers is what is read after it, in whatever environment, and the reading changes
-- nothing.
pub get_platform_settings-update_platform_settings :
    (e e' : Env) (p : SettingsPatch) (row : Option SettingRow)
    → let u = update_platform_settings e p row in get_platform_settings e' u.1 ≡ u
unfolding get_platform_settings update_platform_settings
get_platform_settings-update_platform_settings e e' p row = refl

-- A first reading keeps the environment's network, and later changes of the environment are not
-- seen.
pub get_platform_settings_first :
    (e e' : Env)
    → let g = get_platform_settings e none in
      (g.0.network ≡ e.stellar_network) × (get_platform_settings e' g.1 ≡ g)
unfolding get_platform_settings text_eq
get_platform_settings_first e e' = (named e.stellar_network, refl)
  where
    named :
        (n : Network)
        → ◌≡◌ {A = Network}
            (if text_eq (network_text n) (codes "pubnet") then pubnet else testnet)
            n
    named testnet = refl
    named pubnet = refl

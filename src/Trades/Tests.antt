-- ===== src/Trades/Tests.antt =====
-- The settlement of a trade at the sample world.
use xgamefi.Prelude.{[], ◌∷◌, ◌≡◌, refl, arith, find, count}
use xgamefi.Trades.Settlement.{verify_and_advance_p2p_trade, transfer_item_and_payout}
use xgamefi.Trades.Escrow.{Escrows, verify_and_advance_p2p_trade-Escrows}
use xgamefi.Trades.Transfer.{Transfers, transfer_item_and_payout-Transfers}
use xgamefi.Trades.Custody.{total, transfer_item_and_payout-total}
use xgamefi.World.{World}
use xgamefi.Trades.Quote.{create_trade_quote}
use xgamefi.Trades.Reservation.{Reserves, create_trade_quote-Reserves}
use xgamefi.Schema.{ListingStatus, TradeStatus}
use xgamefi.Samples.{db, world, world_escrow, external, external_trade, trade, listing}

verify_and_advance_p2p_trade-Escrows_example :
    Escrows external_trade 71 971 world (verify_and_advance_p2p_trade external_trade 71 971 world)
verify_and_advance_p2p_trade-Escrows_example =
    verify_and_advance_p2p_trade-Escrows external_trade 71 971 world

transfer_item_and_payout-Transfers_example :
    Transfers external 71 world_escrow (transfer_item_and_payout external 71 world_escrow)
transfer_item_and_payout-Transfers_example =
    transfer_item_and_payout-Transfers external 71 world_escrow

transfer_item_and_payout-total_example :
    total (transfer_item_and_payout external 71 world_escrow).1.db.ownerships
    ≡ total world_escrow.db.ownerships
transfer_item_and_payout-total_example =
    transfer_item_and_payout-total external 71 world_escrow
      (record trade { status = TradeStatus.paid }) listing (unfold find in refl)
      (unfold find in refl) (unfold count in refl) (unfold count in omega arith)

abbrev world_listed : World
world_listed = record world {
  db = record db { listings = record listing { status = ListingStatus.active } ∷ [] };
}

create_trade_quote-Reserves_example :
    Reserves external 41 61 world_listed (create_trade_quote external 41 61 world_listed)
create_trade_quote-Reserves_example = create_trade_quote-Reserves external 41 61 world_listed

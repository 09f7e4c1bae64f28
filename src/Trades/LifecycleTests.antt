-- ===== src/Trades/LifecycleTests.antt =====
-- A trade that is paid and transferred.
use xgamefi.Prelude.{
  ◌≡◌, refl, subst, inl, inr, some, [], ◌∷◌, ◌==◌, find, Bool-cases, text_eq, update,
}
use xgamefi.Schema.{Uuid, Trade, TradeStatus}
use xgamefi.World.{World}
use xgamefi.Jobs.Refund.{find_trade}
use xgamefi.Stellar.{
  verify_payment, truncate_text_memo, cut_point, is_continuation, matching_payment, asset_matches,
  send_payment,
}
use xgamefi.Trades.Settlement.{verify_and_advance_p2p_trade, transfer_item_and_payout}
use xgamefi.Trades.Lifecycle.{escrow, transfer, Steps, here, then, Route, status_of, Steps-Route}
use xgamefi.Trades.Funded.{IsFunded, Funded, Steps-IsFunded}
use xgamefi.Samples.{world, external_trade, trade}

abbrev after_escrow : World
after_escrow = (verify_and_advance_p2p_trade external_trade 71 971 world).1

abbrev after_transfer : World
after_transfer = (transfer_item_and_payout external_trade 71 after_escrow).1

abbrev life : Steps external_trade world after_transfer
life = then (escrow 71 971 world) (then (transfer 71 after_escrow) here)

completed_status : status_of (find_trade 71 after_transfer.db) ≡ some TradeStatus.completed
unfolding verify_and_advance_p2p_trade transfer_item_and_payout verify_payment truncate_text_memo
    cut_point is_continuation matching_payment asset_matches find update text_eq send_payment
completed_status = refl

Steps-Route_example :
    Route (status_of (find_trade 71 world.db)) (status_of (find_trade 71 after_transfer.db))
Steps-Route_example = Steps-Route external_trade 71 life

one_row : (r : Trade) (j : Uuid) (t : Trade) → find (λ s. s.id == j) (r ∷ []) ≡ some t → r ≡ t
unfolding find
one_row r j t e = elim (Bool-cases (r.id == j)) [ inl y ↦ cc (rw y at e) | inr n ↦ cc (rw n at e) ]

world-IsFunded : IsFunded external_trade world
world-IsFunded j t found =
    subst (λ r. Funded external_trade world.db.ledger r r.status) (one_row trade j t found) tt

Steps-IsFunded_example : IsFunded external_trade after_transfer
Steps-IsFunded_example = Steps-IsFunded external_trade life world-IsFunded

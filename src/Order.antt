-- ===== src/Order.antt =====
-- Orders and the checks before they are signed: src/types/order.rs, and `submit_order`,
-- `batch_order` and `check_trigger_limit` of src/rest/exchange.rs. Addresses, market ids and client
-- order ids are numbers. What signs and posts is the parameter `post`, which is given the wire
-- action and the signed action.
pub mod Triggers
pub mod Guard
pub mod Submission
mod Tests
use metaflux_client_rust.Base.{
  ℕ, List, [], ◌∷◌, Bool, true, false, Option, none, some, Result, ok, err, ◌>>=◌, ◌>>◌, reject_if,
  map, not, ◌==◌, if◌then◌else◌,
}

abbrev pub Address : Type 0
Address = ℕ

pub data Side : Type 0 where
  bid ask : Side

pub data OrderKind : Type 0 where
  limit market stop_loss take_profit : OrderKind

pub data TimeInForce : Type 0 where
  gtc ioc alo : TimeInForce

pub data PositionSide : Type 0 where
  long short : PositionSide

pub data StpMode : Type 0 where
  cancel_oldest cancel_newest cancel_both : StpMode

pub data TpSl : Type 0 where
  tp sl : TpSl

pub record Trigger : Type 0 where
  pub trigger_px : ℕ
  pub is_market : Bool
  pub tpsl : TpSl
  pub trail_px : Option ℕ

pub record Builder : Type 0 where
  pub fee : ℕ
  pub user : Address

pub record Order : Type 0 where
  pub owner : Address
  pub market_id : ℕ
  pub side : Side
  pub kind : OrderKind
  pub size : ℕ
  pub limit_px : ℕ
  pub tif : TimeInForce
  pub stp_mode : StpMode
  pub reduce_only : Bool
  pub cloid : Option ℕ
  pub builder : Option Builder
  pub position_side : Option PositionSide
  pub trigger : Option Trigger

pub data OrderGrouping : Type 0 where
  na normal_tpsl position_tpsl : OrderGrouping

pub record BatchOrder : Type 0 where
  pub owner : Address
  pub orders : List Order
  pub grouping : OrderGrouping

-- The time in force of a coerced order of this kind.
abbrev pub coerced_tif : OrderKind → TimeInForce → TimeInForce
coerced_tif market tif = ioc
coerced_tif limit tif = tif
coerced_tif stop_loss tif = tif
coerced_tif take_profit tif = tif

-- `Order::coerce_market_tif`, which `market_tif_coerced` applies to a copy.
pub market_tif_coerced : Order → Order
market_tif_coerced o = record o { tif = coerced_tif o.kind o.tif }

-- `BatchOrder::market_tifs_coerced`.
pub market_tifs_coerced : BatchOrder → BatchOrder
market_tifs_coerced b = record b { orders = map market_tif_coerced b.orders }

-- The messages of `ClientError::Validation` in `check_trigger_limit`.
pub data GuardError : Type 0 where
  zero_trail zero_limit_px non_gtc : GuardError

abbrev pub is_gtc : TimeInForce → Bool
is_gtc gtc = true
is_gtc ioc = false
is_gtc alo = false

abbrev pub is_zero_trail : Option ℕ → Bool
is_zero_trail none = false
is_zero_trail (some d) = d == 0

-- The branch of a trigger that fires as a limit order.
check_resting : ℕ → TimeInForce → Result GuardError (Unit {0})
check_resting limit_px tif = do
  reject_if (limit_px == 0) zero_limit_px
  reject_if (not (is_gtc tif)) non_gtc

check_trigger : Option Trigger → ℕ → TimeInForce → Result GuardError (Unit {0})
check_trigger none limit_px tif = ok tt
check_trigger (some t) limit_px tif = do
  reject_if (is_zero_trail t.trail_px) zero_trail
  if t.is_market then ok tt else check_resting limit_px tif

pub check_trigger_limit : Order → Result GuardError (Unit {0})
unfolding check_trigger check_resting
check_trigger_limit o = check_trigger o.trigger o.limit_px o.tif

-- The loop over the legs of a batch, which leaves at the first refusal.
pub check_legs : List Order → Result GuardError (Unit {0})
check_legs [] = ok tt
check_legs (o ∷ os) = check_trigger_limit o >> check_legs os

-- A trading action, as it stands on the wire or under the signature.
pub data TradingAction : Type 0 where
  submit : Order → TradingAction
  batch : BatchOrder → TradingAction

-- Why a submission fails: a local check, or what the transport or the node answers.
pub data SubmitError (E : Type 0) : Type 0 where
  validation : GuardError → SubmitError E
  transport : E → SubmitError E

module _ {E A : Type 0} (post : TradingAction → TradingAction → Result E A) where
  abbrev send : TradingAction → Result (SubmitError E) A
  send action = elim (post action action) [ ok a ↦ ok a | err e ↦ err (transport e) ]

  abbrev checked :
      Result GuardError (Unit {0}) → Result (SubmitError E) A → Result (SubmitError E) A
  checked (ok _) rest = rest
  checked (err e) rest = err (validation e)

  -- `Exchange::submit_order`.
  pub submit_order : Order → Result (SubmitError E) A
  submit_order o = checked (check_trigger_limit o) (send (submit (market_tif_coerced o)))

  -- `Exchange::batch_order`.
  pub batch_order : BatchOrder → Result (SubmitError E) A
  batch_order b = checked (check_legs b.orders) (send (batch (market_tifs_coerced b)))

  -- `WsClient::submit_order`, which has no check of its own.
  pub ws_submit_order : Order → Result (SubmitError E) A
  ws_submit_order o = send (submit (market_tif_coerced o))

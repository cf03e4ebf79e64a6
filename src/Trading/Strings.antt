-- ===== src/Trading/Strings.antt =====
-- The type strings of the trading actions (src/wallet/typed_orders.rs).
use metaflux_client_rust.Base.{String}

abbrev pub ty_submit_order : String
ty_submit_order =
    "MetaFluxTransaction:SubmitOrder(string metafluxChain,uint32 market,string side,string kind,uint64 size,uint64 limitPx,string tif,string stpMode,bool reduceOnly,string cloid,uint16 builderFee,address builderUser,string positionSide,uint64 triggerPx,bool triggerIsMarket,string triggerTpsl,uint64 nonce)"

abbrev pub ty_cancel_order : String
ty_cancel_order =
    "MetaFluxTransaction:CancelOrder(string metafluxChain,uint32 market,uint64 oid,uint64 nonce)"

abbrev pub ty_spot_order : String
ty_spot_order =
    "MetaFluxTransaction:SpotOrder(string metafluxChain,uint32 pair,string side,uint64 size,uint64 limitPx,string tif,string stpMode,string cloid,uint64 nonce)"

abbrev pub ty_spot_cancel : String
ty_spot_cancel =
    "MetaFluxTransaction:SpotCancel(string metafluxChain,uint32 pair,uint64 oid,uint64 nonce)"

abbrev pub ty_cancel_by_cloid : String
ty_cancel_by_cloid =
    "MetaFluxTransaction:CancelByCloid(string metafluxChain,uint32 asset,string cloid,uint64 nonce)"

abbrev pub ty_modify : String
ty_modify =
    "MetaFluxTransaction:Modify(string metafluxChain,uint32 market,uint64 oid,bool hasNewPx,uint64 newPx,bool hasNewSize,uint64 newSize,string cloid,bool alwaysPlace,uint64 nonce)"

abbrev pub ty_batch_modify : String
ty_batch_modify =
    "MetaFluxTransaction:BatchModify(string metafluxChain,bytes32 modifications,uint64 nonce)"

abbrev pub ty_schedule_cancel : String
ty_schedule_cancel =
    "MetaFluxTransaction:ScheduleCancel(string metafluxChain,uint64 cancelAtBlock,uint64 nonce)"

abbrev pub ty_twap_order : String
ty_twap_order =
    "MetaFluxTransaction:TwapOrder(string metafluxChain,uint32 market,string side,uint64 totalSize,uint32 sliceCount,uint64 delayMs,bool reduceOnly,uint64 nonce)"

abbrev pub ty_twap_order_v2 : String
ty_twap_order_v2 =
    "MetaFluxTransaction:TwapOrder(string metafluxChain,uint32 market,string side,uint64 totalSize,uint32 sliceCount,uint64 delayMs,bool reduceOnly,string positionSide,uint64 nonce)"

abbrev pub ty_twap_order_v3 : String
ty_twap_order_v3 =
    "MetaFluxTransaction:TwapOrder(string metafluxChain,uint32 market,string side,uint64 totalSize,uint32 sliceCount,uint64 delayMs,bool reduceOnly,string positionSide,bool randomize,uint64 nonce)"

abbrev pub ty_twap_cancel : String
ty_twap_cancel = "MetaFluxTransaction:TwapCancel(string metafluxChain,uint64 twapId,uint64 nonce)"

abbrev pub ty_batch_order : String
ty_batch_order =
    "MetaFluxTransaction:BatchOrder(string metafluxChain,address owner,bytes32 orders,string grouping,uint64 nonce)"

abbrev pub ty_batch_cancel : String
ty_batch_cancel =
    "MetaFluxTransaction:BatchCancel(string metafluxChain,bytes32 cancels,uint64 nonce)"

abbrev pub ty_submit_order_trail : String
ty_submit_order_trail =
    "MetaFluxTransaction:SubmitOrder(string metafluxChain,uint32 market,string side,string kind,uint64 size,uint64 limitPx,string tif,string stpMode,bool reduceOnly,string cloid,uint16 builderFee,address builderUser,string positionSide,uint64 triggerPx,bool triggerIsMarket,string triggerTpsl,uint64 trailPx,uint64 nonce)"

abbrev pub ty_batch_order_trail : String
ty_batch_order_trail =
    "MetaFluxTransaction:BatchOrder(string metafluxChain,address owner,bytes32 orders,string grouping,bytes32 trailPxs,uint64 nonce)"

abbrev pub ty_spot_order_with_owner : String
ty_spot_order_with_owner =
    "MetaFluxTransaction:SpotOrder(string metafluxChain,address owner,uint32 pair,string side,uint64 size,uint64 limitPx,string tif,string stpMode,string cloid,uint64 nonce)"

abbrev pub ty_spot_cancel_with_owner : String
ty_spot_cancel_with_owner =
    "MetaFluxTransaction:SpotCancel(string metafluxChain,address owner,uint32 pair,uint64 oid,uint64 nonce)"

abbrev pub ty_cancel_by_cloid_with_owner : String
ty_cancel_by_cloid_with_owner =
    "MetaFluxTransaction:CancelByCloid(string metafluxChain,address owner,uint32 asset,string cloid,uint64 nonce)"

abbrev pub ty_modify_with_owner : String
ty_modify_with_owner =
    "MetaFluxTransaction:Modify(string metafluxChain,address owner,uint32 market,uint64 oid,bool hasNewPx,uint64 newPx,bool hasNewSize,uint64 newSize,string cloid,bool alwaysPlace,uint64 nonce)"

abbrev pub ty_batch_modify_with_owner : String
ty_batch_modify_with_owner =
    "MetaFluxTransaction:BatchModify(string metafluxChain,address owner,bytes32 modifications,uint64 nonce)"

abbrev pub ty_twap_cancel_with_owner : String
ty_twap_cancel_with_owner =
    "MetaFluxTransaction:TwapCancel(string metafluxChain,address owner,uint64 twapId,uint64 nonce)"

abbrev pub ty_batch_cancel_with_owner : String
ty_batch_cancel_with_owner =
    "MetaFluxTransaction:BatchCancel(string metafluxChain,address owner,bytes32 cancels,uint64 nonce)"

abbrev pub ty_submit_order_with_owner : String
ty_submit_order_with_owner =
    "MetaFluxTransaction:SubmitOrder(string metafluxChain,address owner,uint32 market,string side,string kind,uint64 size,uint64 limitPx,string tif,string stpMode,bool reduceOnly,string cloid,uint16 builderFee,address builderUser,string positionSide,uint64 triggerPx,bool triggerIsMarket,string triggerTpsl,uint64 nonce)"

abbrev pub ty_submit_order_trail_with_owner : String
ty_submit_order_trail_with_owner =
    "MetaFluxTransaction:SubmitOrder(string metafluxChain,address owner,uint32 market,string side,string kind,uint64 size,uint64 limitPx,string tif,string stpMode,bool reduceOnly,string cloid,uint16 builderFee,address builderUser,string positionSide,uint64 triggerPx,bool triggerIsMarket,string triggerTpsl,uint64 trailPx,uint64 nonce)"

abbrev pub ty_cancel_order_with_owner : String
ty_cancel_order_with_owner =
    "MetaFluxTransaction:CancelOrder(string metafluxChain,address owner,uint32 market,uint64 oid,uint64 nonce)"

abbrev pub ty_schedule_cancel_with_owner : String
ty_schedule_cancel_with_owner =
    "MetaFluxTransaction:ScheduleCancel(string metafluxChain,address owner,uint64 cancelAtBlock,uint64 nonce)"

abbrev pub ty_twap_order_with_owner : String
ty_twap_order_with_owner =
    "MetaFluxTransaction:TwapOrder(string metafluxChain,address owner,uint32 market,string side,uint64 totalSize,uint32 sliceCount,uint64 delayMs,bool reduceOnly,uint64 nonce)"

abbrev pub ty_twap_order_v2_with_owner : String
ty_twap_order_v2_with_owner =
    "MetaFluxTransaction:TwapOrder(string metafluxChain,address owner,uint32 market,string side,uint64 totalSize,uint32 sliceCount,uint64 delayMs,bool reduceOnly,string positionSide,uint64 nonce)"

abbrev pub ty_twap_order_v3_with_owner : String
ty_twap_order_v3_with_owner =
    "MetaFluxTransaction:TwapOrder(string metafluxChain,address owner,uint32 market,string side,uint64 totalSize,uint32 sliceCount,uint64 delayMs,bool reduceOnly,string positionSide,bool randomize,uint64 nonce)"

abbrev pub ty_scale_order : String
ty_scale_order =
    "MetaFluxTransaction:ScaleOrder(string metafluxChain,uint32 market,string side,uint32 n,uint64 pxLow,uint64 pxHigh,uint64 totalSize,string dist,bytes32 weights,string tif,bool reduceOnly,string stpMode,string positionSide,string cloid,uint64 nonce)"

abbrev pub ty_scale_order_with_owner : String
ty_scale_order_with_owner =
    "MetaFluxTransaction:ScaleOrder(string metafluxChain,address owner,uint32 market,string side,uint32 n,uint64 pxLow,uint64 pxHigh,uint64 totalSize,string dist,bytes32 weights,string tif,bool reduceOnly,string stpMode,string positionSide,string cloid,uint64 nonce)"

abbrev pub ty_cancel_scale : String
ty_cancel_scale =
    "MetaFluxTransaction:CancelScale(string metafluxChain,uint32 market,string cloid,uint64 nonce)"

abbrev pub ty_cancel_scale_with_owner : String
ty_cancel_scale_with_owner =
    "MetaFluxTransaction:CancelScale(string metafluxChain,address owner,uint32 market,string cloid,uint64 nonce)"

abbrev pub ty_chase_order : String
ty_chase_order =
    "MetaFluxTransaction:ChaseOrder(string metafluxChain,uint32 market,string side,uint64 size,string cloid,string stpMode,string positionSide,uint32 intervalBlocks,uint64 ttlMs,uint32 maxReprices,uint64 nonce)"

abbrev pub ty_chase_order_with_owner : String
ty_chase_order_with_owner =
    "MetaFluxTransaction:ChaseOrder(string metafluxChain,address owner,uint32 market,string side,uint64 size,string cloid,string stpMode,string positionSide,uint32 intervalBlocks,uint64 ttlMs,uint32 maxReprices,uint64 nonce)"

abbrev pub ty_cancel_chase : String
ty_cancel_chase =
    "MetaFluxTransaction:CancelChase(string metafluxChain,uint32 market,uint64 chaseOid,uint64 nonce)"

abbrev pub ty_cancel_chase_with_owner : String
ty_cancel_chase_with_owner =
    "MetaFluxTransaction:CancelChase(string metafluxChain,address owner,uint32 market,uint64 chaseOid,uint64 nonce)"

-- ===== src/Lib.antt =====
-- greet is a backend of Go services around trades on Solana: a consumer that reads the blocks of
-- the chain, works out prices and keeps tables of tokens and their pairs, a market service that
-- chooses the pair of a token, and a trade service that turns market orders into transactions,
-- signs and sends them and keeps the state of the orders. The services share packages (pkg/) and
-- the models of their tables (model/).
--
-- The consumer. A slot that the node reports, or that failed before, goes to ProcessBlock. It
-- fetches the block, keeps the row of the slot in the block table, works out the price of SOL in
-- USD from the swaps in the block, decodes the PumpFun trades of each transaction with the token
-- accounts of the block, and hands the trades of each pair to routines that call SaveTrades. For
-- each pair SavePairInfo saves the token of its last trade, with what the node and the web say of
-- it, and then the pair, and fills the trades in. SlotNotCompleted sends the slots of blocks that
-- are recorded as failed to be processed again.
-- - Transfers: consumer/internal/logic/sol/block/price.go. Decode has DecodeTokenTransfer and
--   GetInnerInstructionByInner, Price has GetBlockSolPriceByTransfer and IsSwapTransfer, Average
--   has RemoveMinAndMaxAndCalculateAverage, Accounts has FillTokenAccountMap and
--   DecodeInitAccountInstruction, and BlockPrice has GetInnerInstructionMap and GetBlockSolPrice.
-- - Pump: consumer/internal/logic/sol/block/pump.go, DecodePumpInstruction and DecodePumpEvent.
-- - Blocks: consumer/internal/logic/sol/block/block.go. Fetch has GetSolBlockInfo (of price.go),
--   Process has DecodeInstruction, DecodeTx and ProcessBlock, and the filter of SaveTrades (of
--   db.go).
-- - Pairs: consumer/internal/logic/sol/block/{types,db}.go and the row types of model/solmodel.
--   Save has SavePair and UpdatePairDBPoint, Batch has SavePairInfo, BatchSaveByTrade and the
--   routines of SaveTrades.
-- - Tokens: consumer/internal/logic/sol/block/token.go. Uri has isURLAccessible,
--   replaceWithPublicGateway and the reading of a metadata document, Info has GetTokenProgram,
--   GetTokenTotalSupply, GetTokenInfo and GetToken2022Info, and Save has SaveToken.
-- - Slots: consumer/internal/logic/sol/slot/not_complete.go, SlotNotCompleted, with the queries
--   FindFirstFailedBlock and FindProcessingSlots of model/solmodel/blockmodel.go.
--
-- The trade service. CreateMarketOrder checks a request, finds the pair and inserts an order;
-- CreateMarketTx makes the parameters of a swap of the order and hands them to a loop that sends
-- and may raise the slippage; the outcome goes into the order and its log by updateDbByTxResult.
-- What is sent is made by the Solana part: it converts the parameters, builds the instructions for
-- the kind of pool, signs, simulates, and sends through Jito or the node.
-- - Order: trade/internal/logic/createmarketorderlogic.go and model/trademodel. Params has the
--   parameters, createAndSendTx and convertSwapErr, Retry the loop, Status has updateDbByTxResult,
--   Flow has CreateMarketTx and CreateMarketOrder, Store the calls of the tables.
-- - Solana: trade/internal/chain/solana. Gas has CreateGasAndJitoByGasFee (gas.go), Dex has
--   CreateMarketOrderDex (txManager.go), PumpFun has CreateMarketOrder4Pumpfun (pump.go), Send has
--   convertCreateMarketTx, CreateMarketTx, Sign, simulate and SignByTeeAndSend (txManager.go) with
--   SendViaJitoRetry (jito.go), Unsigned has BuildUnsignedTransaction and SignAndSendTransaction
--   (txManager.go), by which the order flow sends, Pools has CreatePoolInstructions,
--   findRaydiumPoolPDAs and BuildUnsignedPoolTransaction (txManager.go), Ticks has
--   tickWithSpacing and getTickArrayStartIndexByTick, Positions findTickArrays and
--   buildOpenPositionInstruction, and Liquidity CreateAddLiquidityInstructions with the calls that
--   read the account of a pool.
-- - Quotes: pkg/trade/swap.go, CalculateBuyQuote and calculateSellQuote of pkg/pumpfun/pump.
-- - PumpSdk: pkg/pumpfun/pump. Node has the derived addresses of pumpfun.go and consts.go, Curve
--   has FetchBondingCurve (bonding-curve.go), Creator the search for the creator of a token and
--   its vault (consts.go), Layout the accounts and data of the instructions, and Swap
--   BuildBuyInstruction (buy.go) and BuildSellInstruction (sell.go).
--
-- The market service answers for the pair of a token and for the price of SOL.
-- - Market: Lookup is FindOneByChainIdTokenAddress of model/solmodel/pairmodel.go, Service has
--   GetPairInfoByToken and GetNativeTokenPrice of market/internal/logic with the query of
--   model/solmodel/trademodel.go.
--
-- Order takes the Solana part as functions that may panic (Chain in Order.Params), so its
-- statements hold for any manager of transactions; Solana.Unsigned is the one of the repository,
-- and Solana.Send the way that Sign takes. Solana.PumpFun takes the PumpFun client as functions of
-- the manager, and Solana.PumpFun.Buys puts PumpSdk in their place. Blocks uses Transfers and Pump
-- by their functions, and its trades are the batches of Pairs.Batch, which uses Tokens. Order takes
-- the market service as a record (Market in Order.Flow), and Market.Service makes that record of
-- the functions of the repository.
--
-- How state and failure are written. A struct is a record with the fields that the code reads or
-- writes, in snake case. A function that changes a table, or an object that its caller keeps,
-- takes it and returns it. A Go error is one of the codes of pkg/xcode or another error known by
-- its text, and a pair of value and error is a Result; an error leaves the value beside it unused.
-- Where a function can panic its result is an Option, and none is the panic. Code outside the
-- repository stands as a parameter: float64 and shopspring's decimals (Floats, Decimals in
-- Base.Numbers, without laws but for the order of floats that are numbers; NewFromFloat panics on
-- a float that is none, which Order.Flow and Solana.Pools write out, while the floats of the
-- consumer, which come from amounts, are taken to be numbers), the tables over gorm
-- (Store, PairStore, BlockStore, TokenStore, with the laws that their documentation gives), the
-- remote market (Market), the node, the codecs and the configuration of the consumer (Codecs,
-- Service), the node and the web that are asked for tokens (Web), the node of the PumpFun client
-- (PumpNode), the database of the market service (MarketServer), and the node, the keys and the
-- instruction builders of the Solana libraries (Manager, Network). Tests.Concrete gives concrete
-- ones, over which the code runs in Tests.
--
-- Bounds and fuel. The retry loop goes on only below three tries, and each round counts one, so
-- three rounds are enough. GetSolBlockInfo counts its attempts down from eleven, which is its own
-- limit, and SendViaJitoRetry from five. Itoa writes a number with the number itself as fuel,
-- which has at least as many units as digits. All other loops run over lists, that of
-- SlotNotCompleted over its ticks. The int64 columns and slots are never negative in the code and
-- are naturals; amounts that are turned to uint64 or int64 keep their wrap-around, and uint64
-- arithmetic on lamports is written out modulo 2^64. The ticks of a position are signed and wrap
-- around at 64 bits. The big integers of the quotes are exact.
--
-- Runs side by side. ProcessBlock does not wait for the routines that save, so a run gives the
-- trades that it hands over. Two calls of SavePair that interleave are written as two searches
-- followed by two writes.
--
-- Not modelled. In the consumer: the reading of slots from the websocket; logging and metrics. In
-- trade: the transaction around the instructions that add liquidity, and the timers that refresh
-- rent and tips. Of pkg: the backoff, the choice between two libraries of instruction builders
-- (pkg/sol/tokenOps.go), and helpers that nothing calls. The gateway passes requests on. Code
-- generated from protobuf and from interface descriptions, the copies of Solana token libraries
-- under pkg/sol, templates, configuration and connections have no logic of their own.
pub mod Base
pub mod Order
pub mod Pairs
pub mod Transfers
pub mod Pump
pub mod Blocks
pub mod Solana
pub mod PumpSdk
pub mod Market
pub mod Tokens
pub mod Slots
pub mod Quotes
pub mod Tests

-- ===== src/Lib.antt =====
-- Verification of the advisory decision pipeline: from the supervisors' results on one market to the
-- risk that each strategy family may take.
--
-- The pipeline is a chain of stages. Each stage is a pure function of the result of the stage
-- before, embeds that result in its own, and lets the constructor of its result model check the
-- whole by re-deriving it. A constructor that refuses raises.
--
--   stage                  source                                            file
--   market evaluation      app/market_evaluation/evaluator.py                Market
--   strategy router        app/strategies/router.py                          Strategy.Router
--   judge                  app/judge/judge.py                                Strategy.Judge
--   policy gate            app/decision/gate.py                              Strategy.Policy
--   risk gate              app/risk/engine.py                                Money.Risk, Money.Gate
--   portfolio supervisor   app/diversification/supervisor.py                 Money.Portfolio
--   session gate           app/statistics/session.py                         Money.Session
--
-- Beside it stands the rollover state of the broker account, from which the account snapshot takes
-- its rollover equity: app/mt5/rollover.py and the cycle of app/orchestration/runtime_cycle.py that
-- reads, decides and writes it (Broker.Rollover). Broker.Sizing turns the risk that the session gate
-- leaves a family into a volume on the broker's grid (app/mt5/sizing.py).
--
-- The broker's facts feed the pipeline and follow what it issued. Broker.OpenRisk assesses what the
-- open positions may lose to their stops (app/mt5/risk.py), Broker.Deals and Broker.History what a
-- trading day has realized (app/mt5/history.py); both loops are Broker.Tally. Tracking is the life
-- of an issued recommendation: Tracking.Issuance creates it and guards a netting account
-- (app/mt5/tracker.py, app/orchestration/runtime_cycle.py), Tracking.Matching finds its position
-- among the deals (app/mt5/matching.py), Tracking.Lifecycle reconstructs the position and
-- Tracking.Tracker updates the recommendation (app/mt5/tracker.py), and Tracking.Sweep updates all
-- of them in a cycle (app/orchestration/runtime_cycle.py). Orchestration.Facts assembles the account
-- snapshot that the risk gate reads from the rollover, the day and the open risk
-- (app/orchestration/facts.py). Their models are app/core/models/mt5_position.py, mt5_history.py,
-- mt5_matching.py, mt5_tracking.py and position.py.
--
-- Events is the gate that stands between the setups and the risk gate: Events.Calendar says which
-- scheduled events matter to an instrument, Events.Gate judges each setup by them and takes the risk
-- per unit from the candidates of blocked families (app/decision/high_impact_event_gate.py,
-- app/core/models/high_impact_event.py, `to_candidate_risk_inputs` of
-- app/decision/setup_construction.py).
--
-- OrderBook is the local order book of the market data side
-- (app/market_data/realtime/order_book_sync.py): OrderBook.Levels the sides, OrderBook.Synchronizer
-- the state machine, in which each call returns the new state and its reply, exceptions included.
--
-- The result models and their validators come from app/core/models: market_evaluation_result.py
-- (Market.Result), strategy_router_result.py (Strategy.Router), strategy_judge_result.py
-- (Strategy.Evidence), policy_gate_result.py (Strategy.Policy), risk_gate_result.py (Money.Account,
-- Money.Risk, Money.Gate), portfolio_result.py (Money.Portfolio) and session_result.py
-- (Money.Session). The enumerations come from app/core/enums (Market.Enums, Market.EvidenceEnums,
-- Strategy.Enums, Money.Enums), the configuration from app/core/config/trading_cycle.py
-- (Money.Account), and what the pipeline reads of the supervisors' results from their models in
-- app/core/models (Market.Evidence). The judge is in four files: Strategy.Readings resolves one
-- dimension, Strategy.TechnicalFamilies and Strategy.EventDriven judge the families, and
-- Strategy.Judge puts them together.
--
-- A function keeps its source's name without the leading underscore. A validator, or all of a
-- model's validators, is a function into Bool named is_valid or is_valid_ and a subject. A function
-- that may raise returns Option, Evaluated (market evaluation) or Outcome (risk gate); `none` stands
-- for an exception that the source does not name: a refused result, a failed assert, an index or a
-- key that is not there. A function whose name ends in _fields computes what its source gives to the
-- constructor of its result. Dictionaries by family or symbol are lists in which a later entry wins;
-- those of the matching and of the order book are lists of items with distinct keys, and the mapping
-- of tracked recommendations is the list of its items in the order of the trade ids. An enumeration
-- carries its declaration order, by which the source sorts reasons and references.
--
-- Time stamps are natural numbers: the stages only compare them. `str.upper` acts on ASCII letters.
-- Python's Decimal is a parameter, Decimal.Context: a carrier, the operations of the active context,
-- which may round, and the order. What a theorem needs of it is one of the laws there, and each law
-- has an instance in Decimal.FixedPoint, Decimal.ExactFixedPoint or Decimal.FixedGrid, fixed-point
-- numbers of four places that round away from zero or towards it. All recursion is structural, so there is no fuel.
--
-- Not modelled: the construction of the setups, the supervisors and analysts that produce the
-- evidence, the terminal's client and the persistence of app/mt5, the rest of orchestration, the
-- providers and the transport of market data, the interfaces (app/api, app/telegram) and the
-- language model. A trading-day key is a number in the order of the days; its computation from the
-- time zone is not modelled. The identity of the market (MarketEvaluationContext) is taken without
-- its own validator.
pub mod Prelude
pub mod Market
pub mod Strategy
pub mod Decimal
pub mod Money
pub mod Samples
pub mod Broker
pub mod Tracking
pub mod OrderBook
pub mod Events
pub mod Orchestration

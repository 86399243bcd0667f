-- ===== src/Lib.antt =====
-- A model of the core of dappctrl, the controller of the Privatix network, and what makes it
-- correct. An agent sells a service to clients; each sale is a state channel with a deposit, and
-- the client pays with signed balance proofs as it uses the service.
--
-- - Data (data/schema.go, data/jobs.go, data/misc.go): the tables as records, the job types and
--   payloads, the fixed-width encodings, the price of consumed units. Data.Errors numbers the
--   error values of all packages.
-- - Store: PostgreSQL as reform shows it. A world holds the committed tables, the working copy of
--   an open transaction, and an oracle that says which calls fail; an action is a function from a
--   world to a result and a world. Transactions are run one at a time, as the row locks make them
--   appear; interleavings are modelled where the code relies on single statements (Pay.Monotone).
-- - Job (job/queue.go): adding a job and the check for duplicates (Add), running a job, its
--   retries and its cancellation (Worker), subscriptions (Subscribe).
-- - Proc (proc/channel.go): suspension, activation and termination of a channel's service.
-- - Eth (eth/common.go): the messages that the parties sign. Keccak-256, signatures and text
--   decoding are libraries: the record Crypto holds them as parameters.
-- - Pay (pay/pay.go, pay/misc.go, pay/client.go): the agent's handling of a payment and the
--   client's handling of the reply.
-- - ClientBill (client/bill/monitor.go): what the client's billing monitor does with a channel.
-- - AgentBill (agent/bill/monitor.go): the conditions of the agent's billing queries and the round
--   that suspends, resumes and terminates services by them.
-- - Sess (sess/session.go, sess/misc.go, GetEndpoint of sess/product.go): the requests of a
--   product's adapter. bcrypt's comparison is a parameter.
-- - Bc (bc/range_of_interest.go, bc/monitor.go, the range of bc/bc.go): which blocks a round of the
--   blockchain monitor reads, and how it stores the jobs for their logs. The node and the makers of
--   queries and of jobs are parameters of a round.
-- - Bc.Jobs (bc/jobsmaker.go): which jobs the log of an event asks for, for the agent and for the
--   client (Lookup, Producers); Asked says it apart from the code, and Rules and Made
--   compare the two.
-- - Handlers (proc/worker): the handlers of the jobs. Env holds a worker's parameters: the Ethereum
--   node, the key store, the decoders and the clock, as they answer during one run of a handler;
--   Select and Misc are the lookups and writes that all share, Events reads logs; Service, Channels,
--   Account, Offering, Client, Fetch (the endpoints and offerings that a client fetches), Supply,
--   Ratings and Resend are the handlers, and Table says which type of job has which
--   (proc/handlers/job.go). Found and Sends are the rules for what they find and send; Lifecycle is
--   the abstract machine of a service's life, Carried shows that an accepted change and its
--   handler make a step of it; Created, Registered, Closing, Funds, Opening, Counted, Filled
--   and Fetched are about single handlers, and Dispatch about all of them.
-- - Loop (proc/looper): the jobs that pop up an agent's offerings by themselves (PopUp), and what
--   they cost (Paid).
-- - Ui (ui): the requests of the user interface. Env is what its handler holds and how its libraries
--   answer, Access the token, the lookups and the pages of rows (ui/token.go, ui/db.go, ui/misc.go);
--   Channels and Usage are ui/channel.go, Market (the client's side) and Offerings (the agent's)
--   ui/offering.go, Accounts ui/account.go, Auth ui/auth.go, and Records the requests on jobs,
--   transactions, sessions, endpoints, products, incomes, usages and settings. Rules and Made are
--   the rules for what they find and the jobs that they make; Denied is about the token, Cost about
--   the two ways to tell a usage, Default about the default account, Fitting about the jobs that are
--   made, Accepted about the acceptance of an offering, and Resealed and Renewed about the private
--   keys and the password after a change of the password.
-- - Tests: samples, and the theorems applied to them.
--
-- The billing monitors, the payment client, the handlers and the user interface call Proc; Proc,
-- Sess, Bc, the handlers and the user interface add jobs through Job; and every component reads and
-- writes the tables through Store.
--
-- Identifiers and texts that are only compared are numbers; a uint64 column is a natural number
-- and the price is computed modulo 2 ^ 64; an int64 is an integer, as the columns are bigint. No
-- function runs on fuel: every loop is over a list, but for the steps of the rating, which are
-- counted down.
--
-- A world also keeps the transactions that the node has accepted, so that what a handler sends can
-- be stated; a transaction that the node refuses is not sent.
--
-- Of the tables' constraints one is modelled, valid_current_supply of an offering's supply, where the
-- handlers update an offering (Handlers.Misc). A maker of jobs counts the closings; the code keeps the
-- count where a later step of the same log fails, the model does not.
--
-- Not modelled: the goroutines of the queue and of the monitors, HTTP and RPC, SOMC and Tor, the
-- floating-point rate of getInitialRate (a parameter), the ticker of the looper, the
-- Ethereum client, NAT, logs, country lookup; of the user interface the templates, objects by their
-- type, logs, subscriptions and the reading of the graphical interface's settings, the cache of
-- decrypted keys (a parameter answers for it), and the order in which the goroutines of PingOfferings
-- write their results (they run one after the other). SQL's ORDER BY by a block or a time is a
-- parameter too.
pub mod Base
pub mod Data
pub mod Store
pub mod Job
pub mod Proc
pub mod Eth
pub mod Pay
pub mod ClientBill
pub mod AgentBill
pub mod Sess
pub mod Bc
pub mod Handlers
pub mod Loop
pub mod Ui
mod Tests

-- ===== src/Lib.antt =====
-- A model of the core of the geocoder's backend, with the theorems that make it correct. The program
-- has a geocoding part (services/, shared/), which imports places and answers queries, a traffic part,
-- which writes live speeds into Valhalla's traffic extract, and a billing part (billing/), which meters
-- requests by credits and bills tenants by the month. Paths are from the repository's root.
--
-- - `Prelude`: numbers, lists, dicts with text keys, signed integers and bit operations.
-- - `Traffic.GraphId`, `Traffic.Speed`: shared/traffic_tile.py, the ids of edges and the 64-bit speed
--   record with its fields. A float speed is a ratio of two integers.
-- - `Traffic.Writer`: services/traffic_writer.py. `Memory` is the mapped file, `Shards` is
--   `_resolve_shard` and `owns`, `Chunks` is `_chunks`, and `Defs` is `build_tar_index`, `write_edge`
--   and the body of a round of `run`, in a monad whose actions may raise. Redis is an interface.
-- - `Traffic.Aggregator`: services/traffic_aggregator.py. `ewma` is the script that Redis runs,
--   `update_edge` a call, `Calls` follows one, `Folds` has the calls of many writers as steps, and
--   `Windows` the replicas'
--   attempts at the cells of a window. Redis drops no key meanwhile.
-- - `Interpolation`: shared/interpolation.py. The file itself has house numbers, sides and street
--   names, `Brackets` the neighbours, `Line` the geometry, `Estimate` is `interpolate_address` and
--   `Reverse` is `reverse_interpolate`. Floats are any type with Python's operations.
-- - `Autocomplete`: shared/autocomplete.py. The file itself has the prefixes, the tiers and `query`,
--   `Laws` and `Buckets` its theorems. The normaliser of texts is a parameter.
-- - `Messaging`: shared/nats_client.py, the loops of `ensure_stream`, `connect` and `subscribe_to`. What
--   the server answers to each call of each attempt is an argument.
-- - `Billing.Weights`: billing/weights.py, with `Cap` for the request cap, `Matrix` for the matrix
--   calls and `Cache` for the copy that each process keeps.
-- - `Billing.Meter`: `incr_tenant_if_allowed` of billing/usage.py and the refund of the gateway, as
--   requests that take turns, one Redis command at a time.
-- - `Billing.Accounts`: the rest of billing/repo.py, on the tables of billing/db.py: `Users`,
--   with `seed_admin` there, `Admins`, `Tenants`, `Keys` with `_resolve_key` of billing/gateway.py, and
--   `Plans`; `Retired` follows a deleted tenant through later calls, up to the gateway.
-- - `Billing.ControlPlane`: billing/control_plane.py. The file itself has what is projected to APISIX by
--   billing/apisix_admin.py and the cache of keys, `Sync`, `Synced` and `Teardown` follow `_sync_tenant`,
--   `Handlers` and `Handlers.Keys` are the requests that write, with the routes in `Handlers.Requests`, `Sink` is
--   `usage_sink` and `Names` the names of consumers. The IdP is an interface.
-- - `Billing.Gateway`: `proxy` of billing/gateway.py, one request at a time, with the outcome of the
--   HTTP client's call as an argument; Redis and the database answer every command. `Metering` is about
--   the requests that are served, and `Failed` about the others.
-- - `Billing.Usage`: `flush_events` of billing/usage.py, and the usage totals of a period,
--   of a tenant and `ByKey`, of billing/repo.py.
-- - `Billing.Charge`, `Billing.Invoices`: billing/billing_engine.py, and the statements on invoices
--   of billing/repo.py.
-- - `Ranking`: shared/ranking.py, the score tables, the signals and `compute_offline_rank`.
-- - `Categories`: shared/categories.py, the taxonomy and `classify`.
-- - `Addresses`: shared/address.py. The file itself has the components and the full address, with `Full`
--   and `Contained` about its text, `Texts` the operations on texts, `Ordinals` is `expand_ordinals` and
--   `Query` is `parse_address_query`. Keywords and classes of characters are parameters.
-- - `Geometry`: `_assemble_rings` of services/watcher.py and the two functions `_thin_ring`, there and in
--   services/es_inserter.py, over any type of points, and with `Simplified` `_simplify_geom`.
-- - `OpenAddresses`: services/oa_watcher.py, `_parse_csv_row` and `_parse_geojson_feature`.
-- - `Places`: shared/places_mapping.py, the tables and `place_to_element`. The regular expressions that
--   read a district from a name are a parameter.
-- - `Routing`: `_decode_polyline6` of services/routing.py, up to the division by a million.
-- - `Ledger`: shared/processed.py. `Rows` is the table `processed_files` and its statements, `Files`
--   the ledger file and the public functions.
--
-- The parts meet in few places: the gateway asks `Billing.Weights` for the weight of a request and
-- leaves the event that `Billing.Usage` stores, as the usage sink does; the control plane calls the
-- statements of `Billing.Accounts` and drops what the gateway has in its cache; a key is resolved by
-- `Billing.Accounts` and refused or admitted by `Billing.Gateway`; the totals of the stored rows are what
-- `Billing.Invoices` charges by `Billing.Charge`; the writer packs by `Traffic.Speed` and finds tiles
-- by `Traffic.GraphId`.
--
-- A SQL statement is one function on a list of rows, so it is atomic, as in the database. Python's
-- integers are unbounded; ids, counters and prices that are never negative are natural numbers. The
-- batches of `_chunks` are made on fuel, the length of the sequence, which is the most rounds that a
-- positive batch size takes. Weights and counters are taken to stay below 2^53, where the division
-- of `compute_charge` by 1000 is exact enough for its ceiling. The price of a credit is a parameter
-- that says what `math.ceil` of its multiples is. Ranks are computed exactly: scores are hundredths,
-- and logarithms come in a unit of any precision, so the rounding of floats is not modelled. The
-- loops of `Messaging` run over their 5 or 10 attempts by recursion on how many are left. The loops of
-- `Geometry` run on fuel, the number of ways, of which each round takes one; that of `Routing` on the length
-- of the text, of which each point takes two characters.
--
-- Not modelled: the requests that only read, time stamps and the lists ordered by them, the queries to
-- Elasticsearch, PostGIS and Valhalla, the parsing of files by the watchers and the writes of the inserters, the clients of outside services, and the search vocabulary of shared/categories.py.
-- Signatures, hashing, JSON and the query parser belong to libraries and are parameters where a
-- definition uses them.
pub mod OpenAddresses
pub mod Routing
pub mod Geometry
pub mod Addresses
pub mod Prelude
pub mod Traffic
pub mod Billing
pub mod Ranking
pub mod Categories
pub mod Autocomplete
pub mod Interpolation
pub mod Ledger
pub mod Messaging
pub mod Places

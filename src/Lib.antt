-- ===== src/Lib.antt =====
-- The request-response tier of MobilityAPI, an OGC API - Moving Features service in Go over MobilityDB,
-- and its streaming tier of continuous queries.
--
-- The program is one Go package, with a generator beside it (tools/codegen). main.go holds the routes and
-- the handlers on collections, features, temporal geometries and temporal properties; each handler reads
-- the request, sends SQL to a database seam (backend.go) and writes JSON. feature.go and subresource.go
-- assemble the documents, bulk.go takes batches of observations, stream.go and its siblings run continuous
-- queries over stored or pushed records.
--
-- Modules, by what they model:
--   Base: the names shared, and what the program uses of Go: texts and strings functions (Base/Text), int
--     with the 64-bit range of strconv (Base/Int, with proofs on it in Base/Decimal), float64
--     (Base/Float), decoded JSON (Base/Json), time.Parse and the format RFC3339Nano for the layouts of the
--     tier (Base/Time, Base/Time/Print, with the proof that they agree in Base/Time/Fractions and
--     Base/Time/ReadBack); Base/Split and Base/Replace hold lemmas on texts that are cut apart and
--     replaced, Base/Maps on writes of a map.
--   Http, Backend: responses, errors and handlers; the database seam of backend.go. A handler is a function
--     of the state that goes on with a value or has written its response, so an early return of the source
--     is a `done`. Backend/Drivers: pgBackend and duckBackend behind the seam, over the client libraries;
--     Backend/Opening: openBackend, openDuck, openSpark and envInt.
--   Startup: main, from the environment to the end of the server, and startMQTTIngest.
--   Store: collectionMeta, ident, validID, and a transaction with its deferred rollback.
--   Interp, Catalog, PropType: mdbInterp; the tables of catalog_gen.go and their indexes (Catalog/Index);
--     tPropType and its tokens.
--   Filters: itemFilters; Filters/Clip: clip, clipSub and tstzSet.
--   Document, Subresource, Ogcify: tPropMFJSON; reshapeTemporalProperty and buildTGSequence; ogcify.
--   Properties: the handlers of temporal properties (Form, Table, Create, Read and Remove).
--   Collections: crsCode; postCollection, putCollection and deleteCollection (Handlers); listCollections and
--     getCollection (Read).
--   Items: streamItems (Listing); getItem (Single); postItem, putItem and deleteItem (Writes); tgSequence,
--     tgSequenceQuery, postTgSequence and deleteTgSequence (Geometry); export and streamParquet (Export).
--   Timestamp: rfc3339 of timestamp.go.
--   Fleet: trajectories.go (Trips) and timeseries.go (Series).
--   Feature: the envelopes of feature.go.
--   Observations, Bulk: the decoders of bulk.go; bulkIngest and appendBatch.
--   Spark: inlineParams and sparkLiteral of dialect_spark.go; rewriteSparkSQL (Rewrite); the seam over a
--     session of backend_spark.go (Session) and its scan (Scan).
--   Routes: the table of newMux. ApiDoc and Landing: apiDoc, landing and conformance. Samples: the set of
--     samples.go, and what emitSamples writes (Emit).
--   Stream: instants, specifications and catalogues of stream.go; Windows and Hopping: runAggregate and
--     runHopping of stream_engine_meos.go; Fanout: pump, subscribe and unsubscribe of a query; Registry: the
--     registry of stream.go and the hub of stream_live.go; Engines: the choice of an engine and what Submit
--     takes; Sources: the replays of stream.go and stream_geometry.go; Asking and Requests: the bodies of
--     queries and the handlers; Bridge: the reader of stream_engine_bridge.go and stream_mqtt.go; Meos,
--     Aggregates and Transform: the lifted operations, the aggregates of a window and the run of a query of
--     stream_engine_meos.go, with the dispatch of mathops_meos_gen.go; Events and Opening: streamQuery.
--   Codegen: tools/codegen/main.go, which writes catalog_gen.go and mathops_meos_gen.go: the selection of
--     the operations, their texts (Templates) and main (Generate).
--   The modules Answers, Tokens, Shape, Total, Identifiers, Refusals, Atomic, Batch, Splitting, Counting,
--   Tumbling, CatchingUp, Eviction, Closing, Accepted, Registers, Delivery, Catalogue, Paging, Links,
--   Issued, Inline, Places, Statement, Filled, Alike, Complete, Routed, Written, Rendered, Serves,
--   Lifting, Groups, Selected, Clock, Buckets, Specific, Within, Apart, Paths, Routes/Links, Served,
--   Delivered, Wire, Kept, Walk, First, Postgres and Store/Answers hold proofs about the module above them; Tests holds a database and concrete
--   runs.
--
-- How values are represented:
--   A text is a native string of code points; the case mappings are those of ASCII. A float64 is the
--   exact decimal that it was read from: the program only stores, compares and writes such values here. A
--   request body that decodes into a struct is given as the record, or none where it does not decode; one
--   that decodes into a map is a JSON tree. A document that the source marshals and binds is bound as its
--   tree, and the source's rewriting of a document's text is done on the strings of the tree. SQL texts are
--   those of the source, with the white space of long statements collapsed.
--   The client libraries behind the seam, the codecs, the printers of numbers and of query parameters,
--   strings.Fields, the start of a job, the current time, the functions of libmeos, a session of Spark, the
--   writer of Parquet files, the reading and writing of files, json.Indent, the MQTT client, the server of
--   the standard library, format.Source, and the addition and division of float64 are parameters;
--   math.Round of a coordinate is taken on its exact decimal. IsTransactional states what PostgreSQL
--   documents of transactions: a rollback and a failed commit leave the database as it was; pgBackend and
--   duckBackend have it of their client libraries. Items/Walk.Answers states what SQL
--   documents of a condition on the id with ORDER BY and LIMIT; IsRead states that MEOS reads the literal
--   of a window with as many instants.
--   A Go map of channels is a list of channels with keys; a goroutine's steps are those of a relation, in
--   any order. A path of a request is given with its segments unescaped, and the router chooses the most
--   specific of the patterns that match. A continuous query's results are taken as they are emitted, and
--   its source is the list of the records that it yields, or of the end of its context. The start of a
--   HOPPING window is taken in int64; the other sums of event times stay in it for the years 0 to 9999.
--
-- Fuel: tPropMFJSON recurses on the only member of a valueSequence; its fuel is the depth of the body and one,
-- which suffices since a member is less deep. The loop over the due hops moves by at least a second; its fuel
-- is the seconds to catch up and one. The loop over the buckets of a series moves by a step that is positive;
-- its fuel is the distance of its ends and one.
--
-- Not modelled: the log, the headers and the compression of a response, the stubs of a build without an
-- engine, the ping and the end of a Spark session, and the initialisation of libmeos and of its threads,
-- which only call other code.
pub mod Base
pub mod Http
pub mod Backend
pub mod Interp
pub mod Catalog
pub mod Routes
pub mod Samples
pub mod Landing
pub mod ApiDoc
pub mod Codegen
pub mod PropType
pub mod Filters
pub mod Fleet
pub mod Store
pub mod Timestamp
pub mod Document
pub mod Ogcify
pub mod Subresource
pub mod Properties
pub mod Collections
pub mod Items
pub mod Stream
pub mod Observations
pub mod Bulk
pub mod Spark
pub mod Startup
pub mod Feature
pub mod Tests

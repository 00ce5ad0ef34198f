-- ===== src/Lib.antt =====
-- Tentris, a tensor-based RDF triple store: a model of its C++ code and theorems about it.
--
-- The program parses a SPARQL query (libs/sparql2tensor) into triple patterns, the ids of its
-- variables and a graph of dependencies between the patterns, its operands. The triple store
-- (libs/triple-store) evaluates such a query on a hypertrie, whose nodes have ids of the node store
-- (libs/node-store), and the endpoints (libs/endpoint) answer HTTP requests with the solutions. The
-- program tentris-loader (execs) fills a data store of the package metall from a file, and
-- tentris-server serves it.
--
-- Which file models which part:
-- - Base: shared names, lists, outcomes that may throw, hash maps as association lists.
-- - Sparql/Syntax: the parse tree (generated code of the package sparql-parser) as the data that
--   the visitor reads from it, and RDF terms by the factory call of rdf4cpp that makes them.
-- - Sparql/Terms: SelectAskQueryVisitor, the visits that build terms (visitIri, visitVarOrTerm,
--   visitPath, visitRdfLiteral, ...); rdf4cpp is the parameter Rdf.
-- - Sparql/Graph: the class dice::query::OperandDependencyGraph as a parameter, with its laws.
-- - Sparql/State: SPARQLQuery, the members of the visitor, register_var.
-- - Sparql/Triples: visitTriplesBlock down to visitObject, and add_tp.
-- - Sparql/Pattern: visitWhereClause and visitWellDesignedPattern with its stacks. Its children are
--   proofs; Sparql/Pattern/Order has the reference for the order of the visits.
-- - Sparql/Select: visitSelectClause, SPARQLQuery::parse from the parse tree on, get_slice_keys.
-- - Sparql/Prologue: PrologueVisitor, and SPARQLQuery::parse with it. Sparql/Prologue/Names: proofs
--   about prefixed names.
-- - Sparql/Ids, Sparql/Invariant, Sparql/Parsed: proofs about ids, what every visit keeps, and what
--   holds of a parsed query. Sparql/Reference: proofs about what a parse visits. Sparql/Projection:
--   proofs about SELECT *. Sparql/Edges: proofs about the edges of add_tp. Sparql/Operands: proofs
--   about the operands of the graph.
-- - Sparql/Examples: runs on small queries, and each theorem at a concrete input.
-- - NodeStore/Backends: MetallIRIBackend, MetallBNodeBackend, MetallLiteralBackend and
--   MetallVariableBackend. NodeStore/Storage: MetallNodeTypeStorage with lookup_or_insert_impl,
--   find_backend_view and lookup_size. NodeStore/Impl: PersistentNodeStorageBackendImpl and its
--   facade.
-- - NodeStore/Threads: lookup_or_insert_impl by several threads, a step for each locked section and
--   one for the read of an iterator after the unlock.
-- - NodeStore/Refines, Kept, Valid, Promises, Calls, Start, Runs: proofs, from one storage as a
--   table of nodes to the whole store over any calls.
-- - RdfTensor: libs/rdf-tensor, NodeWrapper and the hashes of nodes. RdfTensor/Identity: proofs.
-- - TripleStore/Hypertrie: the package hypertrie as a parameter. TripleStore/Lists: is_rdf_list and
--   get_rdf_list. TripleStore/Store: the other methods of TripleStore; its children are proofs.
--   TripleStore/Instance: a hypertrie and an inserter for the examples.
-- - Endpoint/Json: the events of rapidjson and JSON values. Endpoint/Writer:
--   SparqlJsonResultSAXWriter. Endpoint/Handlers: handle_query of each endpoint. Endpoint/Requests:
--   Endpoint::operator() and the routes. Endpoint/HttpServer: the settings that HTTPServer passes
--   to restinio. Endpoint/Executor: the test of the executor by the threads of restinio, with the
--   limit of its connections.
--   Endpoint/Answers: proofs about who gets a response. Endpoint/Counted: proofs about /count.
--   Endpoint/Behind, Streaming, Chunks, Document, Body: proofs about the bodies of responses.
-- - Tools/Deduplicate: the loop of execs/tools/deduplicated-nt. Tools/Ids: that of
--   execs/tools/rdf2ids. Tools/Main: main of both.
-- - Programs/Options: the paths and log sinks that both programs derive from their options.
--   Programs/Metall: the package metall as a parameter. Programs/Loader: main of
--   execs/tentris-loader. Programs/Server: main of execs/tentris-server. Programs/Stores, Loaded,
--   Served, Handover: proofs on what one leaves and the other serves. Programs/Disk: a disk for the
--   examples.
-- - NodeStore/Examples, TripleStore/Examples, Endpoint/Examples, Tools/Examples, Programs/Examples,
--   Sparql/Prologue/Examples, RdfTensor/Examples: as Sparql/Examples.
--
-- Correspondence: a visit of a context is a function from the state of the visitor to a new state
-- or a fault; an exception is a fault with its message, and what C++ leaves undefined (a null
-- dereference, back of an empty vector) is a fault of its own. A vector used as a stack has its
-- back first. A char and a uint8_t wrap at 256. visitWellDesignedPattern takes fuel, since its
-- recursion follows the blocks collected so far and not the tree alone; a call is for one group
-- pattern, so a unit for each group pattern of the clause is enough.
--
-- An id of the node store is its value, a backend is at the address that counts those allocated
-- before it. One caller at a time is modelled first, and the threads on top of it. The loop of
-- get_rdf_list takes fuel, since it need not end. A generator is the list of what it yields with
-- the fault that may end it. A handler returns the response it sends; a request that has been moved
-- from is a null pointer. A thread that reads an iterator after an insertion is undefined.
--
-- A run of a program returns the disk it leaves. An uncaught exception, and exit, do not run the
-- destructors of main, so the data stores that main has open then stay open.
--
-- Not modelled: the lexer and parser (generated) with the error listener that nothing registers,
-- the query cache (an adapted copy of LRUCache11), the messages of the log, the reading of command
-- lines (package cxxopts), the wait of the HTTP server for a signal. The packages rdf4cpp,
-- hypertrie, query, metall, rapidjson and restinio are parameters, with the laws that the proofs
-- use.
pub mod Base
pub mod Sparql
pub mod NodeStore
pub mod RdfTensor
pub mod TripleStore
pub mod Endpoint
pub mod Tools
pub mod Programs

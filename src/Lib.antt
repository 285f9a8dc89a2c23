-- ===== src/Lib.antt =====
-- agent-wayfinder: a verification library of its core.
--
-- The program keeps a graph of the code of a workspace. Extractors turn each file into a contribution: nodes,
-- edges, and references that are still open. The contributions are checked, stored and published as versions
-- of the graph, and queries rank nodes and find paths in a published version. An indexer owns a workspace,
-- gathers the paths that change, and publishes them in batches.
--
-- Parts, files and sources (paths from the repository's root):
--   Prelude, Prelude/: shared helpers. Go's strings are lists of bytes; a Go map is an association list, a Go
--     set the list of its keys; an `error` is an option, `(value, error)` a result; Go's `int` is an integer.
--   GoPath, GoPath/: `path` and `path/filepath` on Unix; GoStrings: parts of `strings`, on text of ASCII.
--   Graph, Graph/ (graph/facts.go): the fact schema, NewVocabulary, Validate, node identity.
--   Extractor, Extractor/ (extractor/contracts.go, extractor/vocabulary.go, extractor/page_resolver_index.go,
--     extractors/registry/registry.go): contributions, vocabularies of languages, the registry, cached answers.
--   Indexer, Indexer/ (indexer/lifecycle.go, indexer/queue.go): the manager of the workers. Each operation that
--     holds its lock is a function on the manager; `publish` and `reconcileWorkspace` give the lock up while
--     they call out, and are two functions each; Runs interleaves them as steps. `close` is Owner.Close of
--     indexer/coordinator.go. Rests has the steps that leave a worker without a timer alone.
--   Query, Query/ (query/path.go, query/rank.go, query/query.go): Path is shortestPath, Find is
--     FindPathSnapshot, Rank is Rank, Snapshot the other queries.
--   GoSort, GoSort/: `sort.Strings` and `sort.Slice`.
--   Workspace, Workspace/ (workspace/discovery.go): Patterns are the patterns of `.wayfinderignore`, GitIgnore
--     those of Git, Ignore reads and applies both, Roots has the roots of projects, Discover the walks.
--   Sqlite, Sqlite/ (storage/sqlite/batch.go): insertRows. Tables, Versions and Publication
--     (storage/sqlite/sqlite.go): a table is a list of rows, a statement of SQL a function on it. Tables has the rows,
--     Versions the statements and OpenSnapshot, Publication publish, Prune and Rollback.
--     Traverse has the store's Traverse over the reads of a snapshot.
--   Cli, Cli/ (cli/result.go): output formats and exit codes.
-- A function has the name that the source gives it, in lower case with underscores. Queries use the graph's
-- types, the extractors' checks call the graph's, and path normalisation of the indexer uses GoPath.
--
-- Bounds and fuel: shortestPath has a round for each node and two more, which is enough because each round
-- takes a node that no other took; its walk back has a step for each predecessor and one more. insertRows has a
-- round for each row. A walk from a path to its parents has a round for each byte of the path and one more (`none` where they
-- are not enough, which gitIgnored passes on and sourceExcluded takes for no), and
-- the reader of a pattern one for each byte. The rounds of Traverse are counted by the depth of the request.
-- Durations double as 64-bit integers that wrap around. All other loops are recursions over a list.
--
-- Arguments instead of models: SHA-256, the publisher and the reconciler, the operating system's lock, the
-- clock, the store's lookup, its traversal where a query calls it, the reads below it, the
-- transaction, the resolver index below the cached one, and the verb `%q` of `fmt`.
-- Left out: the texts of errors, contexts, and the order that `sort.Slice` gives to equal keys. Not modelled so
-- far: the sessions, reads and caches of the SQLite store, the index pipeline, the extractors and resolvers of
-- the languages, the control socket, and the program of the command line.
pub mod Prelude
pub mod GoPath
pub mod GoStrings
pub mod GoSort
pub mod Graph
pub mod Indexer
pub mod Query
pub mod Extractor
pub mod Workspace
pub mod Sqlite
pub mod Cli

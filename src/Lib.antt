-- ===== src/Lib.antt =====
-- The logic of yoe, a build system for images of embedded Linux systems: how a project's units are
-- looked up for a distro, how dependencies become a graph, and how packages of the Alpine and Debian
-- indexes become units.
--
-- The program's parts, and how they meet. A project (internal/starlark) is a catalog of units, each
-- registered by a module and tagged for a distro or for none. Lookups pick one unit of a name for a
-- distro; once loading is over, a cache of them (the views) answers instead. Package indexes
-- (internal/apkindex, internal/dpkg) are feeds of that catalog: a provides table maps what packages
-- provide to the packages, and an entry is turned into a unit when it is asked for. The resolver
-- (internal/resolve) walks the dependencies of units through the lookups: a closure of what an
-- image or a device needs at run time, and a graph of what is to be built. A build (internal/build)
-- takes up a part of that graph and builds its units in parallel.
--
-- The files, and the code that each is about:
-- - Common: the shared types (texts are lists of bytes, maps are association lists, an error is a
--   value), Common.Worklist, the queue that `RuntimeClosure` and `appendRuntimeClosureOfDeps` share, and
--   Common.Kahn, the counting of Kahn's algorithm.
-- - Starlark.Units, Starlark.Projects, Starlark.Views, Starlark.Provided: internal/starlark/types.go
--   and internal/starlark/loader.go. The records `Project` and `PackageUnit` (`Unit`) keep the fields
--   that the modelled code reads or writes. `lookup_unit`, `any_unit`, `resolve_for_distro`,
--   `resolve_provides_for_distro`, `effective_distro_for_image`, `build_distro_views` and
--   `build_provides_views` are `LookupUnit`, `AnyUnit`, `resolveForDistro`, `ResolveProvidesForDistro`,
--   `EffectiveDistroForImage`, `buildDistroViews` and `buildProvidesViews`.
-- - Starlark.Topo: internal/starlark/closure.go, `topo_order` (`topoOrder`).
-- - Resolve.Runtime, Resolve.Containers, Resolve.Edges, Resolve.Dag, Resolve.Sort:
--   internal/resolve/runtime.go, container.go and dag.go. `runtime_closure`, `resolve_container`,
--   `resolve_deps`, `append_runtime_closure_of_deps`, `append_container_deps`, `build_dag` and
--   `topological_sort` are `RuntimeClosure`, `ResolveContainer`, `resolveDeps`,
--   `appendRuntimeClosureOfDeps`, `appendContainerDeps`, `BuildDAG` and `topologicalSort`.
-- - Resolve.Walk: `all_deps_of`, `all_rdeps_of` and `transitive_deps` are `DepsOf`, `RdepsOf` and
--   `TransitiveDeps` of internal/resolve/dag.go.
-- - Build.Order, Build.Plan, Build.Schedule: internal/build/executor.go. `build_order` is the part of
--   `BuildUnits` from `BuildDAG` to `skipUnbuildable`; `filter_build_order`, `skip_unbuildable`,
--   `blocked_units` and `plan_units` have the names of the source. Build.Schedule is the worker pool: a
--   `BuildState` holds what the lock guards, with a phase for each worker, and a `Move` is what one
--   worker does between two points where the others may act, so that a schedule is a list of moves.
-- - Apkindex.Dep, Apkindex.Version, Apkindex.Entry, Apkindex.Index, Apkindex.Provides,
--   Apkindex.Materialize: internal/apkindex/deps.go, provides.go, parse.go and materialize.go.
--   `parse_dep`, `compare_versions`, `split_pkgver`, `parse_index`, `build_provides_table` and
--   `materialize_unit` are `ParseDep`, `compareVersions`, `splitPkgver`, `ParseIndex`,
--   `BuildProvidesTable` and `MaterializeUnit`.
-- - Dpkg.Deps, Dpkg.Provides, Dpkg.Materialize: internal/dpkg/deps.go, provides.go, packages.go and
--   materialize.go. The grammar of dependency lines and the comparison of versions are third-party
--   packages, and parameters.
-- - Tui.Query: internal/tui/query/parser.go and match.go. `parse`, `render` and `matches` are `Parse`,
--   `String` and `Matches`.
-- Child modules prove; the modules called Tests hold small runs.
--
-- Maps, bounds and fuel. Go's iteration over a map is the order of the list, so what holds of every
-- list holds of every order; where two walks over one map meet, as the making of `ProvidesViews` and the
-- scan that they replace, the theorem takes two lists. The rank of a module is a signed number (`ℤ` of
-- Common.Ints), which is below zero for feeds. What Go changes through a pointer is put back under its name. Machine
-- integers wrap: the release number of a version is kept modulo 2^64. Loops over lists are structural.
-- The two worklist loops run on fuel: a name enters the queue once, so the number of names that the
-- project (or the view) knows, and for `appendRuntimeClosureOfDeps` the number of the first
-- dependencies besides, is enough.
-- The three walks over a graph run on as much fuel as the graph has nodes, and the order of a graph on the same.
--
-- Not modelled: the evaluation of Starlark files, network, disk and processes, cryptography,
-- compression, hashing and terminal drawing, which call libraries; what a worker runs to build one unit,
-- and whether a build on disk is usable, which are chosen outside; the streams, archives and signatures of the indexes, of which the
-- lines are read; texts that are not ASCII, where the
-- code trims or splits by character class.
pub mod Common
pub mod Starlark
pub mod Resolve
pub mod Apkindex
pub mod Dpkg
pub mod Build
pub mod Tui

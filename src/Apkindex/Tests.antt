-- ===== src/Apkindex/Tests.antt =====
-- Runs of the index code on small inputs, and the theorems at inputs that meet their hypotheses.
use yoe.Common.{
  ok, err, Distinct, compare_text, ◌%◌, ◌≡◌, refl, ◌≢◌, ◌↔◌, inl, inr, true, false, not, some, [],
  ◌∷◌, ◌++◌, arith, Text, codes, text_eq, has_prefix, cut_byte, get, put, elem,
}
use Prim.Native.Nat.{Ordering}
use mathlib.Core.List.{Memᴰ}
use yoe.Apkindex.Dep.{Dep, DepKind, Op, parse_dep, kind_of, split_constraint, or_equal}
use yoe.Apkindex.Dep.Laws.{op_text, render, parse_dep-render}
use yoe.Apkindex.Dep.Accept.{op_free, is_op_byte, is_malformed, accepted, parse_dep-accepted}
use yoe.Apkindex.Dep.Written.{IsWritten, IsPathWritten, parse_dep-render_written}
use yoe.Apkindex.Entry.{Entry, empty_entry}
use yoe.Apkindex.Version.{
  comparison, compare_versions, all_digits, split_pkgver, split_release, int_mod,
}
use yoe.Apkindex.Version.Key.{version_key, compare_versions-key, compare_versions_trans}
use yoe.Apkindex.Version.Release.{
  decimal, is_ascii, split_pkgver-eq-split_release, split_pkgver-append,
}
use yoe.Apkindex.Provides.{build_provides_table, register_entry, register, claim, strip_version}
use yoe.Apkindex.Provides.Newest.{IsNewest, claims, build_provides_table-IsNewest}
use yoe.Apkindex.Materialize.{
  Providers, MaterializeError, materialize_unit, resolve_runtime_deps, resolve_from, wanted,
  wanted_dep, add_new, filter_provides, resolve_in_table,
}
use yoe.Apkindex.Materialize.Closure.{AskedBy, FailsWith}
use yoe.Apkindex.Materialize.Outcome.{materialize_unit-deps, materialize_unit-err}
use yoe.Starlark.Units.{PackageUnit, empty_unit}

abbrev crypto : Dep
crypto = record {
  kind = DepKind.so;
  name = codes "so:libcrypto.so.3";
  version = codes "3.1";
  op = Op.ge;
  conflict = true;
  raw = codes "!so:libcrypto.so.3>=3.1";
}

parse_dep-crypto : parse_dep (codes "!so:libcrypto.so.3>=3.1") ≡ ok crypto
unfolding parse_dep has_prefix split_constraint kind_of or_equal
parse_dep-crypto = refl

parse_dep-render_example :
    (render crypto ≡ codes "!so:libcrypto.so.3>=3.1")
    × (crypto.raw ≡ codes "!so:libcrypto.so.3>=3.1")
    × (crypto.name ≢ [])
parse_dep-render_example =
    parse_dep-render (codes "!so:libcrypto.so.3>=3.1") crypto parse_dep-crypto

crypto-IsWritten : IsWritten crypto
unfolding has_prefix op_free is_op_byte kind_of render op_text
crypto-IsWritten = record {
  named = ground arith;
  no_bang = refl;
  no_slash = refl;
  free = refl;
  fits = tt;
  kinded = refl;
  whole = refl;
}

abbrev shell : Dep
shell = record {
  kind = DepKind.path;
  name = codes "/bin/sh";
  version = [];
  op = Op.no_op;
  conflict = false;
  raw = codes "/bin/sh";
}

shell-IsPathWritten : IsPathWritten shell
unfolding has_prefix render op_text
shell-IsPathWritten = record {
  slash = refl;
  kinded = refl;
  free = refl;
  bare_version = refl;
  whole = refl;
}

read_back-crypto : parse_dep (render crypto) ≡ ok crypto
read_back-crypto = parse_dep-render_written crypto (inl crypto-IsWritten)

parse_dep-render_written_example : parse_dep (render shell) ≡ ok shell
parse_dep-render_written_example = parse_dep-render_written shell (inr shell-IsPathWritten)

parse_dep-accepted_example : accepted (parse_dep (codes "!=1")) ≡ not (is_malformed (codes "!=1"))
parse_dep-accepted_example = parse_dep-accepted (codes "!=1")

compare_releases : compare_versions (codes "1.10-r2") (codes "1.9-r12") ≡ Ordering.gt
unfolding comparison
compare_releases = refl

compare_candidate : compare_versions (codes "1.2_rc1") (codes "1.2") ≡ Ordering.lt
unfolding comparison
compare_candidate = refl

compare_versions-key_example :
    compare_versions (codes "1.2") (codes "1.10")
    ≡ compare_text (version_key (codes "1.2")) (version_key (codes "1.10"))
compare_versions-key_example = compare_versions-key (codes "1.2") (codes "1.10")

compare_versions_trans_example : compare_versions (codes "1.2_rc1") (codes "1.10-r2") ≢ Ordering.gt
unfolding comparison
compare_versions_trans_example =
    compare_versions_trans (codes "1.2_rc1") (codes "1.2") (codes "1.10-r2") (λ e. cc) (λ e. cc)

split_pkgver-append_example :
    (split_pkgver (codes "1.2" ++ (codes "-r" ++ codes "11"))
      ≡ (codes "1.2", decimal 0 (codes "11") % int_mod))
    × (split_release (codes "1.2" ++ (codes "-r" ++ codes "11"))
        ≡ (codes "1.2", decimal 0 (codes "11") % int_mod))
unfolding all_digits
split_pkgver-append_example = split_pkgver-append (codes "1.2") (codes "11") refl

split_pkgver-eq-split_release_example : split_pkgver (codes "1-r2") ≡ split_release (codes "1-r2")
unfolding is_ascii
split_pkgver-eq-split_release_example = split_pkgver-eq-split_release (codes "1-r2") refl

abbrev musl : Entry
musl = record empty_entry {
  name = codes "musl";
  version = codes "1.2-r1";
  provides = codes "so:libc.so=1" ∷ [];
}

abbrev newer_musl : Entry
newer_musl = record musl { version = codes "1.2-r9" }

abbrev busybox : Entry
busybox = record empty_entry {
  name = codes "busybox";
  version = codes "1.36-r0";
  deps = codes "so:libc.so" ∷ codes "musl>1" ∷ codes "!mdev" ∷ codes "/bin/sh" ∷ [];
}

table_newest :
    get (codes "so:libc.so") (build_provides_table (musl ∷ newer_musl ∷ musl ∷ []))
    ≡ some newer_musl
unfolding build_provides_table register_entry register claim strip_version cut_byte get put
    comparison
table_newest = refl

build_provides_table-IsNewest_example :
    IsNewest
      (claims (musl ∷ newer_musl ∷ []))
      (codes "musl")
      (get (codes "musl") (build_provides_table (musl ∷ newer_musl ∷ [])))
build_provides_table-IsNewest_example =
    build_provides_table-IsNewest (musl ∷ newer_musl ∷ []) (codes "musl")

abbrev providers : Providers
providers = resolve_in_table (some (build_provides_table (musl ∷ [])))

abbrev busybox_unit : PackageUnit
busybox_unit = record empty_unit {
  name = codes "busybox";
  class = codes "unit";
  version = codes "1.36";
  runtime_deps = codes "musl" ∷ [];
  home_module = codes "alpine.main";
}

running : Unit {0}
unfolding materialize_unit resolve_runtime_deps resolve_from wanted wanted_dep add_new
    filter_provides resolve_in_table build_provides_table register_entry register claim
    strip_version cut_byte get put comparison elem parse_dep text_eq split_constraint kind_of
    or_equal
running = tt

materialize-busybox :
    materialize_unit busybox (some providers) (codes "alpine.main") ≡ ok busybox_unit
unfolding running
materialize-busybox = refl

materialize_unit-deps_example :
    (busybox_unit.name ≡ busybox.name)
    × Distinct busybox_unit.runtime_deps
    × ((x : Text)
        → elem x busybox_unit.runtime_deps ≡ true ↔ AskedBy busybox.name providers busybox.deps x)
materialize_unit-deps_example =
    materialize_unit-deps busybox providers (codes "alpine.main") busybox_unit materialize-busybox

abbrev lost : Entry
lost = record busybox { deps = codes "so:none" ∷ [] }

abbrev no_provider : MaterializeError
no_provider = MaterializeError.unresolved (codes "so:none") (codes "so:none")

materialize-lost : materialize_unit lost (some providers) [] ≡ err no_provider
unfolding running
materialize-lost = refl

materialize_unit-err_example :
    (raw : Text) × Memᴰ raw lost.deps × FailsWith lost.name providers raw no_provider
materialize_unit-err_example = materialize_unit-err lost providers [] no_provider materialize-lost

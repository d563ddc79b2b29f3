-- ===== src/Debs.antt =====
-- `resolve` of scripts/fetch_debs.py: the packages to fetch, breadth first, without those that the
-- target has already.
pub mod Step
pub mod Termination
pub mod Correct
pub mod Index
pub mod Fetch
pub mod Download
pub mod Main
mod Examples
use embeded_convey_belt.Prelude.{
  ℕ, zero, suc, ◌+◌, Bool, true, false, ◌||◌, Option, none, some, List, [], ◌∷◌, ◌++◌, length,
  if◌then◌else◌,
}
use embeded_convey_belt.Py.{Text, text}
use embeded_convey_belt.Py.Str.{text_eq}

-- `_BASE_PKGS`. A table that no lemma reads is kept folded.
unfoldable pub base_packages : List Text
base_packages =
    text "adduser"
    ∷ text "base-files"
    ∷ text "base-passwd"
    ∷ text "bash"
    ∷ text "coreutils"
    ∷ text "dash"
    ∷ text "debconf"
    ∷ text "debianutils"
    ∷ text "diffutils"
    ∷ text "dpkg"
    ∷ text "e2fsprogs"
    ∷ text "findutils"
    ∷ text "gcc-12-base"
    ∷ text "grep"
    ∷ text "gzip"
    ∷ text "hostname"
    ∷ text "init-system-helpers"
    ∷ text "libapt-pkg6.0"
    ∷ text "libattr1"
    ∷ text "libaudit1"
    ∷ text "libaudit-common"
    ∷ text "libblkid1"
    ∷ text "libbz2-1.0"
    ∷ text "libc6"
    ∷ text "libcap-ng0"
    ∷ text "libcap2"
    ∷ text "libcap2-bin"
    ∷ text "libcom-err2"
    ∷ text "libcrypt1"
    ∷ text "libdb5.3"
    ∷ text "libdbus-1-3"
    ∷ text "libext2fs2"
    ∷ text "libffi8"
    ∷ text "libgcc-s1"
    ∷ text "libgcrypt20"
    ∷ text "libgmp10"
    ∷ text "libgnutls30"
    ∷ text "libgpg-error0"
    ∷ text "libhogweed6"
    ∷ text "libidn2-0"
    ∷ text "liblz4-1"
    ∷ text "liblzma5"
    ∷ text "libmount1"
    ∷ text "libnettle8"
    ∷ text "libp11-kit0"
    ∷ text "libpam-modules"
    ∷ text "libpam-modules-bin"
    ∷ text "libpam-runtime"
    ∷ text "libpam0g"
    ∷ text "libpcre2-8-0"
    ∷ text "libpcre3"
    ∷ text "libseccomp2"
    ∷ text "libselinux1"
    ∷ text "libsepol2"
    ∷ text "libsmartcols1"
    ∷ text "libss2"
    ∷ text "libssl3"
    ∷ text "libssl1.1"
    ∷ text "libssl1.0.2"
    ∷ text "libstdc++6"
    ∷ text "libsystemd0"
    ∷ text "libtasn1-6"
    ∷ text "libtinfo6"
    ∷ text "libudev1"
    ∷ text "libunistring2"
    ∷ text "libuuid1"
    ∷ text "libxxhash0"
    ∷ text "libzstd1"
    ∷ text "login"
    ∷ text "logsave"
    ∷ text "lsb-base"
    ∷ text "mawk"
    ∷ text "mount"
    ∷ text "ncurses-base"
    ∷ text "ncurses-bin"
    ∷ text "openssl"
    ∷ text "passwd"
    ∷ text "perl-base"
    ∷ text "procps"
    ∷ text "sed"
    ∷ text "sensible-utils"
    ∷ text "sysvinit-utils"
    ∷ text "tar"
    ∷ text "tzdata"
    ∷ text "util-linux"
    ∷ text "util-linux-extra"
    ∷ text "zlib1g"
    ∷ []

-- An entry of the index.
pub record Package : Type 0 where
  pub filename : Text
  pub deps : List Text

-- The index, by package name.
abbrev pub Index : Type 0
Index = List (Text × Package)

-- db.get(name)
abbrev pub find : Index → Text → Option Package
find [] name = none
find ((key, pkg) ∷ db) name = if text_eq key name then some pkg else find db name

-- name in names
abbrev pub member : Text → List Text → Bool
member name [] = false
member name (n ∷ ns) = text_eq n name || member name ns

-- The local variables of `resolve`, and the packages it has warned of.
pub record Bfs : Type 0 where
  pub ordered : List Text
  pub warned : List Text
  pub seen : List Text
  pub queue : List Text

-- A package not seen before, by what the index has for it.
abbrev pub enter : Option Package → Text → List Text → Bfs → Bfs
enter none pkg rest b = record {
  ordered = b.ordered;
  warned = b.warned ++ pkg ∷ [];
  seen = pkg ∷ b.seen;
  queue = rest;
}
enter (some p) pkg rest b = record {
  ordered = b.ordered ++ pkg ∷ [];
  warned = b.warned;
  seen = pkg ∷ b.seen;
  queue = rest ++ p.deps;
}

-- The body of the loop, behind `queue.pop(0)`.
unfoldable pub visit : Index → Text → List Text → Bfs → Bfs
visit db pkg rest b =
    if member pkg b.seen then record b { queue = rest } else enter (find db pkg) pkg rest b

-- `while queue`; `none` if the fuel is spent first.
unfoldable pub bfs : ℕ → Index → Bfs → Option Bfs
bfs zero db b = none
bfs (suc fuel) db b = elim b.queue [ [] ↦ some b | pkg ∷ rest ↦ bfs fuel db (visit db pkg rest b) ]

-- The number of dependencies in the index.
abbrev pub arcs : Index → ℕ
arcs [] = 0
arcs ((name, pkg) ∷ db) = length pkg.deps + arcs db

abbrev pub started : List Text → Bfs
started roots = record { ordered = []; warned = []; seen = base_packages; queue = roots }

-- Every root and every dependency is taken from the queue once at most.
unfoldable pub resolve : Index → List Text → Option Bfs
resolve db roots = bfs (suc (length roots + arcs db)) db (started roots)

-- ===== src/Debs/Examples.antt =====
-- `resolve` on a small index.
use embeded_convey_belt.Prelude.{
  ◌≡◌, ◌↔◌, All, refl, Option, none, some, List, [], ◌∷◌, true, false,
}
use embeded_convey_belt.Py.{Text, text, ok, err, os_error}
use embeded_convey_belt.Py.Str.{strip, is_space}
use embeded_convey_belt.Debs.{Index, find, member, base_packages, Bfs, bfs, visit, resolve}
use embeded_convey_belt.Debs.Correct.{IsNeeded, IsDistinct}
use embeded_convey_belt.Debs.Index.{parse_index}
use embeded_convey_belt.Debs.Fetch.{Disk, cut_short, download_debs}
use embeded_convey_belt.Debs.Download.{paths_of, IsKept, download_debs-cut_short}
use embeded_convey_belt.Debs.Main.{Mirror, mirrors, fetch_main, fetch_main-downloads}
use embeded_convey_belt.Debs.Correct.Found.{IsWanted, resolve-IsWanted}

-- Two packages that need each other; one needs a base package and one that is missing.
abbrev small : Index
small =
    (
      text "mosquitto",
      record { filename = text "m.deb"; deps = text "libc6" ∷ text "libmosquitto1" ∷ [] },
    )
    ∷ (
      text "libmosquitto1",
      record { filename = text "l.deb"; deps = text "mosquitto" ∷ text "libwrap0" ∷ [] },
    )
    ∷ []

resolve-IsWanted_example :
    (b : Bfs) × (resolve small (text "mosquitto" ∷ []) ≡ some b)
    × ((p : Text) → (member p b.ordered ≡ true) ↔ IsWanted small (text "mosquitto" ∷ []) p)
    × ((p : Text)
        → (member p b.warned ≡ true) ↔ (
            IsNeeded small (text "mosquitto" ∷ []) p
            × (member p base_packages ≡ false)
            × (find small p ≡ none)))
    × IsDistinct b.ordered
resolve-IsWanted_example = resolve-IsWanted small (text "mosquitto" ∷ [])

ordered : Option Bfs → List Text
ordered none = []
ordered (some b) = b.ordered

resolve_test :
    ordered (resolve small (text "mosquitto" ∷ [])) ≡ text "mosquitto" ∷ text "libmosquitto1" ∷ []
unfolding ordered resolve bfs base_packages visit
resolve_test = refl

abbrev empty_disk : Disk
empty_disk = record { files = []; retrievals = []; made = ok tt; fetched = [] }

abbrev failing_disk : Disk
failing_disk = record { files = []; retrievals = cut_short ∷ []; made = ok tt; fetched = [] }

download_debs-cut_short_example :
    (disk' : Disk) × (download_debs
        (text "http://m/")
        (text "out")
        small
        (text "mosquitto" ∷ [])
        failing_disk
      ≡ (err os_error, disk'))
    × (disk'.fetched ≡ [])
    × (download_debs (text "http://m/") (text "out") small (text "mosquitto" ∷ []) disk'
        ≡ (ok (text "out/m.deb" ∷ []), disk'))
download_debs-cut_short_example =
    download_debs-cut_short (text "http://m/") (text "out") small (text "mosquitto")
      (record { filename = text "m.deb"; deps = text "libc6" ∷ text "libmosquitto1" ∷ [] }) []
      failing_disk refl refl refl refl

-- The index that the mirror of Raspbian buster serves in this example.
abbrev one_package : Text
one_package = text "Package: a\nFilename: pool/a.deb\n\n"

abbrev raspbian : Mirror
raspbian = record {
  arch = text "armhf";
  codename = text "buster";
  base_url = text "http://raspbian.raspberrypi.org/raspbian/";
  suite = text "buster";
  component = text "main";
}

fetch_main-downloads_example :
    (b : Bfs) × (disk' : Disk) × (resolve (parse_index one_package) (text "a" ∷ []) ≡ some b)
    × (fetch_main
          (λ url. ok one_package)
          (text "a" ∷ [])
          (text "out")
          (text "armhf")
          (text "buster")
          empty_disk
        ≡ (
          ok (0, paths_of raspbian.base_url (text "out") (parse_index one_package) b.ordered),
          disk',
        ))
    × All
        (λ path. member path disk'.files ≡ true)
        (paths_of raspbian.base_url (text "out") (parse_index one_package) b.ordered)
    × IsKept raspbian.base_url (text "out") (parse_index one_package) empty_disk disk'
unfolding mirrors
fetch_main-downloads_example =
    fetch_main-downloads (λ url. ok one_package) (text "a" ∷ []) (text "out") (text "armhf")
      (text "buster") one_package raspbian empty_disk refl refl refl refl

-- A clause with a version, and one with an alternative.
parse_index_test :
    parse_index (text "Package: a\nFilename: pool/a.deb\nDepends: b (>= 1), c | d\n\nPackage: x\n")
    ≡ (text "a", record { filename = text "pool/a.deb"; deps = text "b" ∷ text "c" ∷ [] }) ∷ []
unfolding parse_index strip is_space
parse_index_test = refl

-- Without a directory nothing is downloaded.
no_directory_test :
    download_debs (text "http://m/") [] small (text "mosquitto" ∷ []) empty_disk
    ≡ (err os_error, empty_disk)
unfolding download_debs
no_directory_test = refl

-- ===== src/Debs/Main.antt =====
-- `_MIRRORS`, `fetch_packages_index` and `main` of scripts/fetch_debs.py.
use embeded_convey_belt.Prelude.{
  ℕ, ◌≡◌, refl, ◌&&◌, Option, none, some, List, [], ◌∷◌, ◌++◌, true, All, if◌then◌else◌,
}
use embeded_convey_belt.Py.{Result, ok, err, stuck, Text, text}
use embeded_convey_belt.Py.Str.{text_eq}
use embeded_convey_belt.Debs.{Index, member, Bfs, resolve}
use embeded_convey_belt.Debs.Index.{parse_index}
use embeded_convey_belt.Debs.Fetch.{Disk, makedirs, download_debs}
use embeded_convey_belt.Debs.Download.{paths_of, IsKept, download_debs-resolve}

pub record Mirror : Type 0 where
  pub arch : Text
  pub codename : Text
  pub base_url : Text
  pub suite : Text
  pub component : Text

abbrev debian : Text → Text → Mirror
debian arch codename = record {
  arch = arch;
  codename = codename;
  base_url = text "http://deb.debian.org/debian/";
  suite = codename;
  component = text "main";
}

-- `_MIRRORS`
unfoldable pub mirrors : List Mirror
mirrors =
    debian (text "arm64") (text "bookworm")
    ∷ debian (text "arm64") (text "bullseye")
    ∷ debian (text "arm64") (text "buster")
    ∷ debian (text "armhf") (text "bookworm")
    ∷ debian (text "armhf") (text "bullseye")
    ∷ record {
      arch = text "armhf";
      codename = text "buster";
      base_url = text "http://raspbian.raspberrypi.org/raspbian/";
      suite = text "buster";
      component = text "main";
    }
    ∷ []

-- _MIRRORS[(arch, codename)]
abbrev pub find_mirror : Text → Text → List Mirror → Option Mirror
find_mirror arch codename [] = none
find_mirror arch codename (m ∷ ms) =
    if text_eq m.arch arch && text_eq m.codename codename
    then some m
    else find_mirror arch codename ms

-- The URL that `fetch_packages_index` opens.
abbrev pub index_url : Mirror → Text
index_url m =
    m.base_url
    ++ (text "dists/"
        ++ (m.suite
            ++ (b'/' ∷ (m.component ++ (text "/binary-" ++ (m.arch ++ text "/Packages.gz"))))))

-- The exit code and the printed paths, or the exception that ends the program.
abbrev pub printed : Result (List Text) × Disk → Result (ℕ × List Text) × Disk
printed (ok files, disk) = (ok (0, files), disk)
printed (err e, disk) = (err e, disk)

abbrev pub download_resolved :
    Text → Text → Index → Option Bfs → Disk → Result (ℕ × List Text) × Disk
download_resolved base_url outdir db none disk = (err stuck, disk)
download_resolved base_url outdir db (some b) disk =
    printed (download_debs base_url outdir db b.ordered disk)

abbrev pub with_index : Text → Text → List Text → Result Text → Disk → Result (ℕ × List Text) × Disk
with_index base_url outdir packages (err e) disk = (err e, disk)
with_index base_url outdir packages (ok index) disk =
    download_resolved base_url outdir (parse_index index) (resolve (parse_index index) packages)
      disk

-- `index_at` is what opening a URL and decompressing its content gives.
module _ (index_at : Text → Result Text) (packages : List Text) (outdir : Text) where
  abbrev pub with_mirror : Option Mirror → Disk → Result (ℕ × List Text) × Disk
  with_mirror none disk = (ok (1, []), disk)
  with_mirror (some m) disk = with_index m.base_url outdir packages (index_at (index_url m)) disk

  -- `main`
  unfoldable pub fetch_main : Text → Text → Disk → Result (ℕ × List Text) × Disk
  fetch_main arch codename disk = with_mirror (find_mirror arch codename mirrors) disk

  -- For a pair of the table, an index that can be fetched, a directory that can be made or exists, and
  -- downloads that all succeed, the program ends with exit code 0 and prints the paths of the packages that `resolve` finds in the parsed index;
  -- each of these files exists then, and no file has gone.
  pub fetch_main-downloads :
      (arch codename index : Text) (m : Mirror) (disk : Disk)
      → find_mirror arch codename mirrors ≡ some m
      → index_at (index_url m) ≡ ok index
      → makedirs outdir disk.made ≡ ok tt
      → disk.retrievals ≡ []
      → (b : Bfs) × (disk' : Disk) × (resolve (parse_index index) packages ≡ some b)
        × (fetch_main arch codename disk
            ≡ (ok (0, paths_of m.base_url outdir (parse_index index) b.ordered), disk'))
        × All
            (λ path. member path disk'.files ≡ true)
            (paths_of m.base_url outdir (parse_index index) b.ordered)
        × IsKept m.base_url outdir (parse_index index) disk disk'
  unfolding fetch_main
  fetch_main-downloads arch codename index m disk supported fetched made calm =
      let (b, disk', found, runs, there, kept) =
        download_debs-resolve m.base_url outdir (parse_index index) packages disk made calm in
      (b, disk', found, rw (supported, fetched, found, runs) refl, there, kept)

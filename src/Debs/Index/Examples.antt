-- ===== src/Debs/Index/Examples.antt =====
-- A Packages file with two entries.
use embeded_convey_belt.Prelude.{◌≡◌, refl, inl, inr, [], ◌∷◌}
use embeded_convey_belt.Py.{text}
use embeded_convey_belt.Py.Str.{is_space}
use embeded_convey_belt.Debs.Index.{parse_index}
use embeded_convey_belt.Debs.Index.Split.{IsWithout-by_check}
use embeded_convey_belt.Debs.Index.Clause.{IsNameChar-by_check}
use embeded_convey_belt.Debs.Index.Fields.{Dependency, clause, IsDependency}
use embeded_convey_belt.Debs.Index.RoundTrip.{
  Stanza, packages_file, IsStanza, entered, parse_index-packages_file,
}

abbrev libc : Dependency
libc = record { lead = []; name = text "libc6"; behind_name = text " (>= 2.36)" }

abbrev awk : Dependency
awk = record { lead = text " "; name = text "gawk"; behind_name = text "|mawk" }

abbrev broker : Stanza
broker = record {
  name = text "mosquitto";
  others = text "Version: 2.0" ∷ [];
  depends = libc ∷ awk ∷ [];
  filename = text "pool/m.deb";
  later = text "Size: 9" ∷ [];
}

abbrev alone : Stanza
alone = record {
  name = text "tini";
  others = [];
  depends = [];
  filename = text "pool/t.deb";
  later = [];
}

packages_file_test :
    packages_file (broker ∷ alone ∷ [])
    ≡ text
        "Package: mosquitto\nVersion: 2.0\nDepends: libc6 (>= 2.36), gawk|mawk\nFilename: pool/m.deb\nSize: 9\n\nPackage: tini\nFilename: pool/t.deb\n\n"
packages_file_test = refl

libc-IsDependency : IsDependency libc
unfolding is_space
libc-IsDependency = record {
  one_line = IsWithout-by_check 10 (clause libc) refl;
  no_comma = IsWithout-by_check b',' (clause libc) refl;
  blank = tt;
  named = IsNameChar-by_check libc.name refl refl refl;
  some_name = refl;
  optional = inl (refl, inr refl);
}

awk-IsDependency : IsDependency awk
unfolding is_space
awk-IsDependency = record {
  one_line = IsWithout-by_check 10 (clause awk) refl;
  no_comma = IsWithout-by_check b',' (clause awk) refl;
  blank = (refl, tt);
  named = IsNameChar-by_check awk.name refl refl refl;
  some_name = refl;
  optional = inr refl;
}

broker-IsStanza : IsStanza broker
broker-IsStanza = record {
  named = (IsWithout-by_check 10 broker.name refl, refl);
  stored = (IsWithout-by_check 10 broker.filename refl, refl);
  needs = (libc-IsDependency, (awk-IsDependency, tt));
  between = (
    record {
      line = (IsWithout-by_check 10 (text "Version: 2.0") refl, refl);
      no_depends = refl;
      no_filename = refl;
    },
    tt,
  );
  behind = (
    record {
      line = (IsWithout-by_check 10 (text "Size: 9") refl, refl);
      no_depends = refl;
      no_filename = refl;
    },
    tt,
  );
}

alone-IsStanza : IsStanza alone
alone-IsStanza = record {
  named = (IsWithout-by_check 10 alone.name refl, refl);
  stored = (IsWithout-by_check 10 alone.filename refl, refl);
  needs = tt;
  between = tt;
  behind = tt;
}

parse_index-packages_file_example :
    parse_index (packages_file (broker ∷ alone ∷ [])) ≡ entered (broker ∷ alone ∷ []) []
parse_index-packages_file_example =
    parse_index-packages_file (broker ∷ alone ∷ []) (broker-IsStanza, (alone-IsStanza, tt))

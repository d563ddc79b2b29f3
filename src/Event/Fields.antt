-- ===== src/Event/Fields.antt =====
-- What `parse_event` makes of a line of `key=value` words.
use embeded_convey_belt.Prelude.{
  ℕ, ◌≡◌, ◌≢◌, ◌↔◌, refl, true, false, some, List, [], ◌∷◌, ◌++◌, map, append-nil, suc, All,
  All-append, arith, ==_iff, if◌then◌else◌,
}
use embeded_convey_belt.Py.{ok, err, value_error, Text, text}
use embeded_convey_belt.Py.Str.{is_space, contains, before, behind, starts_with, text_eq}
use embeded_convey_belt.Py.Str.Words.{IsWord, IsToken, line, split-strip, split-line}
use embeded_convey_belt.Py.Int.{ℤ, pos, negsuc, parse_int, show_nat, show_int}
use embeded_convey_belt.Py.Int.Digits.{
  IsDigit, Digits, digit_char_range, show_nat-Digits, Digits-IsWord,
}
use embeded_convey_belt.Py.Int.RoundTrip.{parse_int-show_int, parse_int-hex}
use embeded_convey_belt.Event.{
  Value, num, str, real, Event, assign, get, parse_value, parse_token, parse_tokens, parse_event,
}

text_eq_refl : (s : Text) → text_eq s s ≡ true
text_eq_refl [] = refl
text_eq_refl (c ∷ cs) = rw ((==_iff c c).1 refl) (text_eq_refl cs)

text_eq→eq : (s t : Text) → text_eq s t ≡ true → s ≡ t
text_eq→eq [] [] h = refl
text_eq→eq [] (d ∷ ds) h = cc
text_eq→eq (c ∷ cs) [] h = cc
text_eq→eq (c ∷ cs) (d ∷ ds) h = ground (arith, text_eq→eq cs ds)

pub text_eq_iff : (s t : Text) → (text_eq s t ≡ true) ↔ (s ≡ t)
text_eq_iff s t = (text_eq→eq s t, λ e. rw e (text_eq_refl t))

pub get-assign :
    (j k : Text) (v : Value) (ev : Event)
    → get j (assign k v ev) ≡ (if text_eq k j then some v else get j ev)
unfolding get assign
get-assign j k v [] = refl
get-assign j k v ((i, w) ∷ ev) =
    ground (arith, text_eq_iff i k, text_eq_iff i j, text_eq_iff k j, get-assign j k v ev)

-- What a program prints behind the `=`: an integer in decimal, a number as `0x%x`, or a word.
pub data Content : Type 0 where
  integer : ℤ → Content
  hex : ℕ → Content
  word : Text → Content

unfoldable pub shown : Content → Text
shown (integer z) = show_int z
shown (hex n) = b'0' ∷ b'x' ∷ show_nat 16 n
shown (word w) = w

abbrev pub value : Content → Value
value (integer z) = num z
value (hex n) = num (pos n)
value (word w) = str w

-- A word that reads neither as a decimal nor as a hexadecimal number.
abbrev pub IsReadable : Content → Type 0
IsReadable (integer z) = Unit
IsReadable (hex n) = Unit
IsReadable (word w) =
    IsWord w × (starts_with w (text "0x") ≡ false) × (parse_int 10 w ≡ err value_error)

pub record Field : Type 0 where
  pub key : Text
  pub content : Content

pub record IsGood (f : Field) : Type 0 where
  pub key_word : IsWord f.key
  pub no_equals : contains b'=' f.key ≡ false
  pub readable : IsReadable f.content

abbrev pub token : Field → Text
token f = f.key ++ b'=' ∷ shown f.content

-- The dictionary after the assignments of the fields, in their order.
abbrev pub assign_all : List Field → Event → Event
assign_all [] ev = ev
assign_all (f ∷ fs) ev = assign_all fs (assign f.key (value f.content) ev)

not_x : (cs : Text) → All IsDigit cs → starts_with cs (text "x") ≡ false
not_x [] h = refl
not_x (c ∷ cs) ((d, hd, e), h) = let (least, most, ne) = digit_char_range d hd in ground (arith, e)

Digits-not_hex : (s : Text) → Digits s → starts_with s (text "0x") ≡ false
Digits-not_hex s h = rw (h.shape, not_x h.others h.all_digits) (ground arith)

-- A decimal number does not start with 0x.
not_hex : (z : ℤ) → starts_with (show_int z) (text "0x") ≡ false
unfolding show_int
not_hex (pos n) = Digits-not_hex (show_nat 10 n) (show_nat-Digits 10 n (omega arith) (omega arith))
not_hex (negsuc n) = refl

parse_value-shown : (c : Content) → IsReadable c → parse_value (shown c) ≡ ok (value c)
unfolding parse_value shown
parse_value-shown (integer z) h = rw (not_hex z, parse_int-show_int z)
parse_value-shown (hex n) h = rw (parse_int-hex n)
parse_value-shown (word w) (plain, decimal, other) = rw (decimal, other)

split_key :
    (k rest : Text)
    → contains b'=' k ≡ false
    → (contains b'=' (k ++ b'=' ∷ rest) ≡ true)
      × (before b'=' (k ++ b'=' ∷ rest) ≡ k)
      × (behind b'=' (k ++ b'=' ∷ rest) ≡ rest)
split_key [] rest h = (refl, refl, refl)
split_key (c ∷ cs) rest h = ground (arith, split_key cs rest)

parse_token-token :
    (f : Field) (ev : Event)
    → IsGood f
    → parse_token (token f) ev ≡ ok (assign f.key (value f.content) ev)
unfolding parse_token
parse_token-token f ev h =
    let (has, key, rest) = split_key f.key (shown f.content) h.no_equals in
    rw (has, key, rest, parse_value-shown f.content h.readable)

-- The tokens of good fields are words.
shown-IsWord : (c : Content) → IsReadable c → IsWord (shown c)
unfolding shown show_int is_space
shown-IsWord (integer (pos n)) h =
    Digits-IsWord _ (show_nat-Digits 10 n (omega arith) (omega arith))
shown-IsWord (integer (negsuc n)) h =
    (refl, Digits-IsWord _ (show_nat-Digits 10 (suc n) (omega arith) (omega arith)))
shown-IsWord (hex n) h =
    (refl, (refl, Digits-IsWord _ (show_nat-Digits 16 n (omega arith) (omega arith))))
shown-IsWord (word w) (plain, decimal, other) = plain

append-ne-nil : (k rest : Text) (c : ℕ) → k ++ c ∷ rest ≢ []
append-ne-nil [] rest c = λ e. cc
append-ne-nil (d ∷ k) rest c = λ e. cc

token-IsToken : (f : Field) → IsGood f → IsToken (token f)
unfolding is_space
token-IsToken f h = record {
  plain =
      All-append (λ c. is_space c ≡ false) f.key (b'=' ∷ shown f.content) h.key_word
        (refl, shown-IsWord f.content h.readable);
  some_text = append-ne-nil f.key (shown f.content) b'=';
}

pub tokens-IsToken : (fs : List Field) → All IsGood fs → All IsToken (map token fs)
tokens-IsToken [] h = tt
tokens-IsToken (f ∷ fs) h = (token-IsToken f h.0, tokens-IsToken fs h.1)

parse_tokens-append :
    (fs : List Field) (more : List Text) (ev : Event)
    → All IsGood fs
    → parse_tokens (map token fs ++ more) ev ≡ parse_tokens more (assign_all fs ev)
unfolding parse_tokens
parse_tokens-append [] more ev h = refl
parse_tokens-append (f ∷ fs) more ev h =
    rw (parse_token-token f ev h.0)
      (parse_tokens-append fs more (assign f.key (value f.content) ev) h.1)

-- A line of good fields is read as the dictionary of their values, in order, a later field of the
-- same key replacing the value of an earlier one; `source` and `created_at` are assigned last.
pub parse_event-line :
    (now : Text) (fs : List Field)
    → All IsGood fs
    → parse_event now (line (map token fs))
      ≡ ok (
          assign
            (text "created_at")
            (real now)
            (assign (text "source") (str (text "conveyor_node")) (assign_all fs [])))
unfolding parse_event
parse_event-line now fs h =
    rw
      (
        split-strip (line (map token fs)),
        split-line (map token fs) (tokens-IsToken fs h),
        ← append-nil (map token fs),
        parse_tokens-append fs [] [] h,
      )
      (unfold parse_tokens in refl)

-- A line in which good fields are followed by a word with no `=` is refused as a whole, whatever
-- comes behind, with a ValueError.
pub parse_event-no_equals :
    (now : Text) (fs : List Field) (bad : Text) (ws : List Text)
    → All IsGood fs
    → IsToken bad
    → contains b'=' bad ≡ false
    → All IsToken ws
    → parse_event now (line (map token fs ++ bad ∷ ws)) ≡ err value_error
unfolding parse_event
parse_event-no_equals now fs bad ws h hb without hw =
    let are_tokens = All-append IsToken (map token fs) (bad ∷ ws) (tokens-IsToken fs h) (hb, hw) in
    rw
      (
        split-strip (line (map token fs ++ bad ∷ ws)),
        split-line (map token fs ++ bad ∷ ws) are_tokens,
        parse_tokens-append fs (bad ∷ ws) [] h,
      )
      (unfold parse_tokens parse_token in rw without)

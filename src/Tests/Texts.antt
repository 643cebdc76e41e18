-- ===== src/Tests/Texts.antt =====
-- A small JSON library that reads what it writes.
--
-- It writes an object member by member, with an x before each character and each unit of a number.
use Prim.Native.Char.{Char, code}
use Prim.Native.String.{[] as end, ◌∷◌ as ◌then◌}
use vcpkg_webrtc_sample.Prelude.{
  ℕ, zero, suc, ◌≡◌, refl, ap, ◌∙◌, String, str_eq, eq_iff, ◌==◌, Bool, true, false, if◌then◌else◌,
  none, some, [], Crashes,
}
use vcpkg_webrtc_sample.Prelude.Int.{ℤ, pos, negsuc}
use vcpkg_webrtc_sample.Common.Json.{Json, parsed}
use vcpkg_webrtc_sample.Common.Json.Laws.{
  IsScalar, a_text, a_number, IsObject, empty, assigned, IsLawful,
}

pub data Tree : Type 0 where
  null no_members : Tree
  text : String → Tree
  number : ℤ → Tree
  member_of : Tree → String → Tree → Tree

-- A text, with an end, in front of what follows.
abbrev pub emit : String → String → String
emit end r = "y" then r
emit (c then s) r = "x" then (c then emit s r)

abbrev pub tally : ℕ → String → String
tally zero r = "y" then r
tally (suc n) r = "x" then tally n r

abbrev pub write_value : Tree → String → String
write_value (text s) r = "t" then emit s r
write_value (number (pos n)) r = "p" then tally n r
write_value (number (negsuc n)) r = "n" then tally n r
write_value v r = "u" then r

abbrev pub write_onto : Tree → String → String
write_onto (member_of o name v) r = write_onto o (emit name (write_value v r))
write_onto v r = r

-- What is read next: a character of the name or of a text, after its mark; a member's kind; a unit
-- of a number. What came before is kept as what it does to the rest.
pub data Mode : Type 0 where
  name_mark name_character : (String → String) → Mode
  kind_mark : String → Mode
  text_mark text_character : String → (String → String) → Mode
  unit_mark : String → (ℕ → ℤ) → Mode

abbrev pub is_char : ℕ → Char → Bool
is_char n c = code c == n

abbrev pub outset : Mode
outset = name_mark (λ t. t)

-- 120 is the code of x, 116 of t, and 112 of p.
abbrev pub read_char : Char → Mode → Tree → Mode × Tree
read_char c (name_mark k) o = (if is_char 120 c then name_character k else kind_mark (k end), o)
read_char c (name_character k) o = (name_mark (λ t. k (c then t)), o)
read_char c (kind_mark name) o = (
  if is_char 116 c
      then text_mark name (λ t. t)
      else if is_char 112 c
      then unit_mark name pos
      else unit_mark name negsuc,
  o,
)
read_char c (text_mark name k) o =
    if is_char 120 c then (text_character name k, o) else (outset, member_of o name (text (k end)))
read_char c (text_character name k) o = (text_mark name (λ t. k (c then t)), o)
read_char c (unit_mark name f) o =
    if is_char 120 c
    then (unit_mark name (λ n. f (suc n)), o)
    else (outset, member_of o name (number (f 0)))

abbrev pub read_onto : String → Mode × Tree → Tree
read_onto end (m, o) = o
read_onto (c then s) (m, o) = read_onto s (read_char c m o)

abbrev pub look_up : Tree → String → Crashes Tree
look_up (member_of o name v) other = if str_eq name other then some v else look_up o other
look_up no_members other = some null
look_up null other = some null
look_up v other = none

abbrev pub text_of : Tree → Crashes String
text_of (text s) = some s
text_of null = some ""
text_of v = none

abbrev pub number_of : Tree → Crashes ℤ
number_of (number n) = some n
number_of null = some (pos 0)
number_of v = none

abbrev pub is_text : Tree → Bool
is_text (text s) = true
is_text v = false

abbrev pub has_members : Tree → Bool
has_members no_members = true
has_members (member_of o name v) = true
has_members v = false

abbrev pub tree_json : Json
tree_json = record {
  Value = Tree;
  parse = λ s. parsed (read_onto s (outset, no_members));
  write = λ v. write_onto v end;
  is_bool = λ v. false;
  is_string = is_text;
  is_array = λ v. false;
  is_object = has_members;
  as_bool = λ v. none;
  as_string = text_of;
  as_int = number_of;
  member = look_up;
  elements = λ v. [];
  empty_object = no_members;
  of_string = text;
  of_int = number;
  with_member = member_of;
}

read-name :
    (s r : String) (k : String → String) (o : Tree)
    → read_onto (emit s r) (name_mark k, o) ≡ read_onto r (kind_mark (k s), o)
read-name end r k o = refl
read-name (c then s) r k o = read-name s r (λ t. k (c then t)) o

read-text :
    (s r name : String) (k : String → String) (o : Tree)
    → read_onto (emit s r) (text_mark name k, o)
      ≡ read_onto r (outset, member_of o name (text (k s)))
read-text end r name k o = refl
read-text (c then s) r name k o = read-text s r name (λ t. k (c then t)) o

read-number :
    (n : ℕ) (r name : String) (f : ℕ → ℤ) (o : Tree)
    → read_onto (tally n r) (unit_mark name f, o)
      ≡ read_onto r (outset, member_of o name (number (f n)))
read-number zero r name f o = refl
read-number (suc n) r name f o = read-number n r name (λ m. f (suc m)) o

read-value :
    {v : Tree} (r name : String) (o : Tree)
    → IsScalar tree_json v
    → read_onto (write_value v r) (kind_mark name, o) ≡ read_onto r (outset, member_of o name v)
read-value r name o (a_text s) = read-text s r name (λ t. t) o
read-value r name o (a_number (pos n)) = read-number n r name pos o
read-value r name o (a_number (negsuc n)) = read-number n r name negsuc o

read-write :
    {v : Tree} (r : String)
    → IsObject tree_json v
    → read_onto (write_onto v r) (outset, no_members) ≡ read_onto r (outset, v)
read-write r empty = refl
read-write r (assigned {v} {w} name o c) =
    read-write (emit name (write_value w r)) o
    ∙ (read-name name (write_value w r) (λ t. t) v ∙ read-value r name v c)

pub tree_json-IsLawful : IsLawful tree_json
tree_json-IsLawful = record {
  parse-write = λ o. ap parsed (read-write end o);
  as_string-of_string = λ s. refl;
  as_int-of_int = λ n. refl;
  member_same = λ name o c. rw ((eq_iff name name).1 refl) refl;
  member_other = λ name other o c e. rw e refl;
  member_missing = λ name. (null, refl, refl);
}

-- ===== src/Json/Parse/Steps.antt =====
-- One step of the parser on what `print` wrote: a string, a number, and the brackets.
use mathlib.Core.Option
use tessera_transparency.Base.{
  ℕ, suc, ◌≤◌, ◌≡◌, refl, ◌∙◌, ap, sym, Bool, true, false, [], ◌∷◌, ◌++◌, append_assoc, Option,
  some, arith, Bytes, ◌==◌,
}
use tessera_transparency.Json.Utf8.{IsUtf8}
use tessera_transparency.Json.Quote.{quote, quote_mark, escape}
use tessera_transparency.Json.Quote.RoundTrip.{raw_string-escape, unquote-escape}
use tessera_transparency.Json.Number.{IsEnd, IsNumeral, scan_number-append}
use tessera_transparency.Json.Value.{
  Value, Items, Members, null, boolean, number, string, array, object, nil, item, end, member,
  print, more_items, more_members, need,
}
use tessera_transparency.Json.Parse.{
  skip_spaces, word, text, open_array, open_object, start, next_item, next_member, key, colon,
  read_value, read_items, read_members,
}
use tessera_transparency.Json.Parse.Printable.{IsPrintable, skip_spaces-print}

pub text-escape :
    (s rest : Bytes) → IsUtf8 s → text (escape s ++ quote_mark ∷ rest) ≡ some (s, rest)
unfolding text
text-escape s rest v = rw (raw_string-escape s rest, unquote-escape s v)

pub quote-append : (s t : Bytes) → quote s ++ t ≡ quote_mark ∷ (escape s ++ quote_mark ∷ t)
quote-append s t = ap (λ r. quote_mark ∷ r) (append_assoc (escape s) (quote_mark ∷ []) t)

pub key-quote : (s rest : Bytes) → IsUtf8 s → key (skip_spaces (quote s ++ rest)) ≡ some (s, rest)
unfolding key skip_spaces
key-quote s rest v = ap (λ t. key (skip_spaces t)) (quote-append s rest) ∙ text-escape s rest v

-- A numeral is read as a number: it begins like nothing else.
pub start-number :
    (its : Bytes → Option (Items × Bytes)) (ms : Bytes → Option (Members × Bytes)) (n rest : Bytes)
    → IsNumeral n
    → IsEnd rest
    → start its ms (n ++ rest) ≡ some (number n, rest)
unfolding start
start-number its ms [] rest h e = absurd h
start-number its ms (c ∷ s) rest h e = ground (arith, scan_number-append (c ∷ s) rest h e)

-- The text behind an element is a comma or a closing bracket, which ends a number.
pub more_items-IsEnd : (vs : Items) (rest : Bytes) → IsEnd (more_items vs ++ rest)
unfolding more_items
more_items-IsEnd nil rest = ground arith
more_items-IsEnd (item v vs) rest = ground arith

pub more_members-IsEnd : (ms : Members) (rest : Bytes) → IsEnd (more_members ms ++ rest)
unfolding more_members
more_members-IsEnd end rest = ground arith
more_members-IsEnd (member k v ms) rest = ground arith

pub read_value_tight :
    (v : Value) (f : ℕ) (rest : Bytes)
    → IsPrintable v
    → start (read_items f) (read_members f) (print v ++ rest) ≡ some (v, rest)
    → read_value (suc f) (print v ++ rest) ≡ some (v, rest)
unfolding read_value
read_value_tight v f rest h e = rw (skip_spaces-print v rest h) e

pub start-string :
    (its : Bytes → Option (Items × Bytes)) (ms : Bytes → Option (Members × Bytes)) (s rest : Bytes)
    → IsUtf8 s
    → start its ms (print (string s) ++ rest) ≡ some (string s, rest)
unfolding start print
start-string its ms s rest v =
    ap (λ t. Option.map (λ (u, r). (string u, r)) (text t))
      (append_assoc (escape s) (quote_mark ∷ []) rest)
    ∙ rw (text-escape s rest v)

pub open_array-print :
    (inner : Bytes → Option (Items × Bytes)) (v : Value) (t : Bytes)
    → IsPrintable v
    → open_array inner (print v ++ t)
      ≡ Option.map (λ (vs, rest). (array vs, rest)) (inner (print v ++ t))
unfolding open_array print IsPrintable
open_array-print inner null t h = refl
open_array-print inner (boolean true) t h = refl
open_array-print inner (boolean false) t h = refl
open_array-print inner (number []) t h = absurd h
open_array-print inner (number (c ∷ s)) t h =
    let other : (c == b']') ≡ false = ground arith in rw other
open_array-print inner (string s) t h = refl
open_array-print inner (array vs) t h = refl
open_array-print inner (object ms) t h = refl

abbrev pub IsRead : Value → Type 0
IsRead v =
    (f : ℕ) (rest : Bytes)
    → need v ≤ f
    → IsEnd rest
    → read_value f (print v ++ rest) ≡ some (v, rest)

-- The first element and a reader of the others.
pub read_items_first :
    (v : Value) (f : ℕ) (t : Bytes)
    → IsRead v
    → need v ≤ f
    → IsEnd t
    → read_items (suc f) (print v ++ t) ≡ next_item (read_items f) v (skip_spaces t)
unfolding read_items
read_items_first v f t reads enough e = rw (reads f t enough e)

pub read_members_first :
    (k : Bytes) (v : Value) (f : ℕ) (t : Bytes)
    → IsUtf8 k
    → IsPrintable v
    → IsRead v
    → need v ≤ f
    → IsEnd t
    → read_members (suc f) (quote k ++ b':' ∷ (print v ++ t))
      ≡ next_member (read_members f) k v (skip_spaces t)
unfolding read_members
read_members_first k v f t valid h reads enough e =
    rw (key-quote k (b':' ∷ (print v ++ t)) valid)
      (unfold colon skip_spaces in rw (reads f t enough e))

pub start-array :
    (f : ℕ) (v : Value) (vs : Items) (rest : Bytes)
    → IsPrintable v
    → read_items f ((print v ++ more_items vs) ++ rest) ≡ some (item v vs, rest)
    → read_value (suc f) (print (array (item v vs)) ++ rest) ≡ some (array (item v vs), rest)
unfolding start print read_value
start-array f v vs rest h e =
    let tight = skip_spaces-print v (more_items vs ++ rest) h in
    let opened = open_array-print (read_items f) v (more_items vs ++ rest) h in
    let at = append_assoc (print v) (more_items vs) rest in
    ap (λ t. open_array (read_items f) (skip_spaces t)) at
    ∙ ap (open_array (read_items f)) tight
    ∙ opened
    ∙ ap (λ t. Option.map (λ (us, r). (array us, r)) (read_items f t)) (sym at)
    ∙ rw e

pub start-object :
    (f : ℕ) (k : Bytes) (v : Value) (ms : Members) (rest : Bytes)
    → read_members f ((quote k ++ b':' ∷ (print v ++ more_members ms)) ++ rest)
      ≡ some (member k v ms, rest)
    → read_value (suc f) (print (object (member k v ms)) ++ rest)
      ≡ some (object (member k v ms), rest)
unfolding start print read_value open_object skip_spaces
start-object f k v ms rest e = rw e

pub member-append :
    (k : Bytes) (v : Value) (ms : Members) (rest : Bytes)
    → (quote k ++ b':' ∷ (print v ++ more_members ms)) ++ rest
      ≡ quote k ++ b':' ∷ (print v ++ (more_members ms ++ rest))
member-append k v ms rest = simp append_assoc

pub next_item_comma :
    (f : ℕ) (v w : Value) (ws : Items) (rest : Bytes)
    → read_items f ((print w ++ more_items ws) ++ rest) ≡ some (item w ws, rest)
    → next_item (read_items f) v (skip_spaces (more_items (item w ws) ++ rest))
      ≡ some (item v (item w ws), rest)
unfolding next_item more_items skip_spaces
next_item_comma f v w ws rest e = rw e

pub next_member_comma :
    (f : ℕ) (k : Bytes) (v : Value) (j : Bytes) (w : Value) (ws : Members) (rest : Bytes)
    → read_members f ((quote j ++ b':' ∷ (print w ++ more_members ws)) ++ rest)
      ≡ some (member j w ws, rest)
    → next_member (read_members f) k v (skip_spaces (more_members (member j w ws) ++ rest))
      ≡ some (member k v (member j w ws), rest)
unfolding next_member more_members skip_spaces
next_member_comma f k v j w ws rest e = rw e

pub read_value-null :
    (f : ℕ) (rest : Bytes) → read_value (suc f) (print null ++ rest) ≡ some (null, rest)
unfolding read_value start print word skip_spaces
read_value-null f rest = refl

pub read_value-boolean :
    (f : ℕ) (b : Bool) (rest : Bytes)
    → read_value (suc f) (print (boolean b) ++ rest) ≡ some (boolean b, rest)
unfolding read_value start print word skip_spaces
read_value-boolean f true rest = refl
read_value-boolean f false rest = refl

pub read_value-empty_array :
    (f : ℕ) (rest : Bytes) → read_value (suc f) (print (array nil) ++ rest) ≡ some (array nil, rest)
unfolding read_value start print skip_spaces
read_value-empty_array f rest = refl

pub read_value-empty_object :
    (f : ℕ) (rest : Bytes)
    → read_value (suc f) (print (object end) ++ rest) ≡ some (object end, rest)
unfolding read_value start print skip_spaces
read_value-empty_object f rest = refl

pub start-print_number :
    (its : Bytes → Option (Items × Bytes)) (ms : Bytes → Option (Members × Bytes)) (n rest : Bytes)
    → IsNumeral n
    → IsEnd rest
    → start its ms (print (number n) ++ rest) ≡ some (number n, rest)
unfolding print
start-print_number its ms n rest h e = start-number its ms n rest h e

pub next_item_close :
    (f : ℕ) (v : Value) (rest : Bytes)
    → next_item (read_items f) v (skip_spaces (more_items nil ++ rest)) ≡ some (item v nil, rest)
unfolding next_item more_items skip_spaces
next_item_close f v rest = refl

pub next_member_close :
    (f : ℕ) (k : Bytes) (v : Value) (rest : Bytes)
    → next_member (read_members f) k v (skip_spaces (more_members end ++ rest))
      ≡ some (member k v end, rest)
unfolding next_member more_members skip_spaces
next_member_close f k v rest = refl

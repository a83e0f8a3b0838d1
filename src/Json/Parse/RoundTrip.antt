-- ===== src/Json/Parse/RoundTrip.antt =====
-- Parsing what `print` wrote.
use mathlib.Core.Path.{subst}
use tessera_transparency.Base.{
  ℕ, zero, suc, ◌+◌, ◌*◌, ◌≤◌, ◌≡◌, refl, ◌∙◌, ap, sym, true, false, [], ◌∷◌, ◌++◌, append_assoc,
  append-nil, some, arith, Bytes, length, length-append,
}
use tessera_transparency.Json.Utf8.{IsUtf8}
use tessera_transparency.Json.Quote.{quote}
use tessera_transparency.Json.Number.{IsEnd}
use tessera_transparency.Json.Value.{
  Value, Items, Members, null, boolean, number, string, array, object, nil, item, end, member,
  print, more_items, more_members, need, need_items, need_members,
}
use tessera_transparency.Json.Parse.{
  skip_spaces, read_value, read_items, read_members, finish, parse, parse_first, first_value,
}
use tessera_transparency.Json.Parse.Printable.{IsPrintable, ArePrintable, HavePrintable}
use tessera_transparency.Json.Parse.Steps.{
  more_items-IsEnd, more_members-IsEnd, read_value_tight, start-string, IsRead, read_items_first,
  read_members_first, start-array, start-object, member-append, next_item_comma, next_member_comma,
  read_value-null, read_value-boolean, read_value-empty_array, read_value-empty_object,
  start-print_number, next_item_close, next_member_close,
}
use tessera_transparency.Json.Parse.Fuel.{need_pos, need-le}

mutual
  unfolding IsPrintable need

  print-IsRead : (v : Value) → IsPrintable v → IsRead v
  print-IsRead v h zero rest enough e = absurd (omega (arith, need_pos v))
  print-IsRead null h (suc f) rest enough e = read_value-null f rest
  print-IsRead (boolean true) h (suc f) rest enough e = read_value-boolean f true rest
  print-IsRead (boolean false) h (suc f) rest enough e = read_value-boolean f false rest
  print-IsRead (number n) h (suc f) rest enough e =
      read_value_tight (number n) f rest h
        (start-print_number (read_items f) (read_members f) n rest h e)
  print-IsRead (string s) h (suc f) rest enough e =
      read_value_tight (string s) f rest h (start-string (read_items f) (read_members f) s rest h)
  print-IsRead (array nil) h (suc f) rest enough e = read_value-empty_array f rest
  print-IsRead (array (item v vs)) h (suc f) rest enough e =
      start-array f v vs rest h.0
        (read_items-print v vs (print-IsRead v h.0) h.0 h.1 f rest (omega arith))
  print-IsRead (object end) h (suc f) rest enough e = read_value-empty_object f rest
  print-IsRead (object (member k v ms)) h (suc f) rest enough e =
      start-object f k v ms rest
        (read_members-print k v ms (print-IsRead v h.1.0) h.0 h.1.0 h.1.1 f rest (omega arith))

  read_items-print :
      (v : Value) (vs : Items)
      → IsRead v
      → IsPrintable v
      → ArePrintable vs
      → (f : ℕ) (rest : Bytes) → suc (need v + need_items vs) ≤ f
      → read_items f ((print v ++ more_items vs) ++ rest) ≡ some (item v vs, rest)
  read_items-print v nil reads hv hvs zero rest enough = absurd (omega arith)
  read_items-print v nil reads hv hvs (suc f) rest enough =
      rw
        (
          append_assoc,
          read_items_first v f (more_items nil ++ rest) reads (omega arith)
              (more_items-IsEnd nil rest),
        )
        (next_item_close f v rest)
  read_items-print v (item w ws) reads hv h zero rest enough = absurd (omega arith)
  read_items-print v (item w ws) reads hv h (suc f) rest enough =
      rw
        (
          append_assoc,
          read_items_first v f (more_items (item w ws) ++ rest) reads (omega arith)
              (more_items-IsEnd (item w ws) rest),
        )
        (next_item_comma f v w ws rest
          (read_items-print w ws (print-IsRead w h.0) h.0 h.1 f rest (omega arith)))

  read_members-print :
      (k : Bytes) (v : Value) (ms : Members)
      → IsRead v
      → IsUtf8 k
      → IsPrintable v
      → HavePrintable ms
      → (f : ℕ) (rest : Bytes) → suc (need v + need_members ms) ≤ f
      → read_members f ((quote k ++ b':' ∷ (print v ++ more_members ms)) ++ rest)
        ≡ some (member k v ms, rest)
  read_members-print k v end reads hk hv hms zero rest enough = absurd (omega arith)
  read_members-print k v end reads hk hv hms (suc f) rest enough =
      ap (read_members (suc f)) (member-append k v end rest)
      ∙ read_members_first k v f (more_members end ++ rest) hk hv reads (omega arith)
          (more_members-IsEnd end rest)
      ∙ next_member_close f k v rest
  read_members-print k v (member j w ws) reads hk hv hms zero rest enough = absurd (omega arith)
  read_members-print k v (member j w ws) reads hk hv h (suc f) rest enough =
      ap (read_members (suc f)) (member-append k v (member j w ws) rest)
      ∙ read_members_first k v f (more_members (member j w ws) ++ rest) hk hv reads (omega arith)
          (more_members-IsEnd (member j w ws) rest)
      ∙ next_member_comma f k v j w ws rest
          (read_members-print j w ws (print-IsRead w h.1.0) h.0 h.1.0 h.1.1 f rest (omega arith))

-- A printable value is read back from its print.
pub parse-print : (v : Value) → IsPrintable v → parse (print v) ≡ some v
unfolding parse finish
parse-print v h =
    let whole = append-nil (print v) in
    let fuel = 2 * length (print v) + 2 in
    let reads : read_value fuel (print v) ≡ some (v, []) =
      subst (λ t. read_value fuel t ≡ some (v, [])) whole
        (print-IsRead v h fuel [] (omega (arith, need-le v h)) tt) in
    rw reads (unfold skip_spaces in refl)

-- A stream's decoder reads it back whatever stands behind it, if that ends a number.
pub parse_first-append :
    (v : Value) (rest : Bytes) → IsPrintable v → IsEnd rest → parse_first (print v ++ rest) ≡ some v
unfolding parse_first first_value
parse_first-append v rest h e = rw (
    print-IsRead v h (2 * length (print v ++ rest) + 2) rest
      (omega (arith, need-le v h, length-append (print v) rest)) e)

pub parse_first-print : (v : Value) → IsPrintable v → parse_first (print v) ≡ some v
parse_first-print v h = ap parse_first (sym (append-nil (print v))) ∙ parse_first-append v [] h tt

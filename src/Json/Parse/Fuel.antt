-- ===== src/Json/Parse/Fuel.antt =====
-- The fuel that a printed value needs, against the length of its text.
use tessera_transparency.Base.{
  suc, ◌≤◌, ◌<◌, true, false, [], ◌∷◌, ◌++◌, arith, length, length-append,
}
use tessera_transparency.Json.Quote.{quote}
use tessera_transparency.Json.Value.{
  Value, Items, Members, null, boolean, number, string, array, object, nil, item, end, member,
  print, more_items, more_members, need, need_items, need_members,
}
use tessera_transparency.Json.Parse.Printable.{IsPrintable, ArePrintable, HavePrintable}

pub need_pos : (v : Value) → 0 < need v
unfolding need
need_pos null = omega arith
need_pos (boolean b) = omega arith
need_pos (number n) = omega arith
need_pos (string s) = omega arith
need_pos (array vs) = omega arith
need_pos (object ms) = omega arith

mutual
  unfolding print need IsPrintable

  pub need-le : (v : Value) → IsPrintable v → need v ≤ length (print v)
  need-le null h = omega arith
  need-le (boolean true) h = omega arith
  need-le (boolean false) h = omega arith
  need-le (number []) h = absurd h
  need-le (number (c ∷ s)) h = omega arith
  need-le (string s) h = omega arith
  need-le (array nil) h = omega arith
  need-le (array (item v vs)) h =
      omega (arith, length-append (print v) (more_items vs), need-le v h.0, need_items-le vs h.1)
  need-le (object end) h = omega arith
  need-le (object (member k v ms)) h = omega (
    arith,
    length-append (quote k) (b':' ∷ (print v ++ more_members ms)),
    length-append (print v) (more_members ms),
    need-le v h.1.0,
    need_members-le ms h.1.1,
  )

  pub need_items-le : (vs : Items) → ArePrintable vs → suc (need_items vs) ≤ length (more_items vs)
  need_items-le nil h = omega arith
  need_items-le (item v vs) h =
      omega (arith, length-append (print v) (more_items vs), need-le v h.0, need_items-le vs h.1)

  pub need_members-le :
      (ms : Members) → HavePrintable ms → suc (need_members ms) ≤ length (more_members ms)
  need_members-le end h = omega arith
  need_members-le (member k v ms) h = omega (
    arith,
    length-append (quote k) (b':' ∷ (print v ++ more_members ms)),
    length-append (print v) (more_members ms),
    need-le v h.1.0,
    need_members-le ms h.1.1,
  )

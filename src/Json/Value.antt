-- ===== src/Json/Value.antt =====
-- JSON values and the compact text that `json.Marshal` gives them. A number is its literal.
use tessera_transparency.Base.{ℕ, suc, ◌+◌, Bool, true, false, [], ◌∷◌, ◌++◌, Bytes, codes}
use tessera_transparency.Json.Quote.{quote}

mutual
  pub data Value : Type 0 where
    null : Value
    boolean : Bool → Value
    number : Bytes → Value
    string : Bytes → Value
    array : Items → Value
    object : Members → Value

  pub data Items : Type 0 where
    nil : Items
    item : Value → Items → Items

  pub data Members : Type 0 where
    end : Members
    member : Bytes → Value → Members → Members

unfoldable mutual
  pub print : Value → Bytes
  print null = codes "null"
  print (boolean true) = codes "true"
  print (boolean false) = codes "false"
  print (number literal) = literal
  print (string s) = quote s
  print (array vs) = b'[' ∷ print_items vs
  print (object ms) = b'{' ∷ print_members ms

  -- Behind the opening bracket.
  pub print_items : Items → Bytes
  print_items nil = b']' ∷ []
  print_items (item v vs) = print v ++ more_items vs

  pub more_items : Items → Bytes
  more_items nil = b']' ∷ []
  more_items (item v vs) = b',' ∷ (print v ++ more_items vs)

  pub print_members : Members → Bytes
  print_members end = b'}' ∷ []
  print_members (member k v ms) = quote k ++ b':' ∷ (print v ++ more_members ms)

  pub more_members : Members → Bytes
  more_members end = b'}' ∷ []
  more_members (member k v ms) = b',' ∷ (quote k ++ b':' ∷ (print v ++ more_members ms))

-- The fuel that reading a printed value takes.
unfoldable mutual
  pub need : Value → ℕ
  need null = 1
  need (boolean b) = 1
  need (number literal) = 1
  need (string s) = 1
  need (array vs) = suc (need_items vs)
  need (object ms) = suc (need_members ms)

  pub need_items : Items → ℕ
  need_items nil = 0
  need_items (item v vs) = suc (need v + need_items vs)

  pub need_members : Members → ℕ
  need_members end = 0
  need_members (member k v ms) = suc (need v + need_members ms)

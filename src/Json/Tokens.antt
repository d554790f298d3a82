-- ===== src/Json/Tokens.antt =====
-- The tokens and the values of a tree, and its depth: what the parser is measured against.
use mcsrv.Common.{ℕ, suc, List, [], ◌∷◌, ◌++◌}
use Prim.Native.Nat.{max}
use mcsrv.Json.Node.{Node, Items, Fields, no_items, item, no_fields, field}
use mcsrv.Json.Parser.{Token, TokenValue}

-- `more_*` print what follows an element: a comma and the others, or the closing bracket.
unfoldable mutual
  pub tokens : Node → List Token
  tokens (Node.string s) = Token.string ∷ []
  tokens (Node.number n) = Token.int ∷ []
  tokens (Node.fnumber x) = Token.float ∷ []
  tokens (Node.boolean b) = Token.bool ∷ []
  tokens Node.null = Token.null ∷ []
  tokens (Node.array xs) = Token.lbracket ∷ first_items xs
  tokens (Node.obj fs) = Token.lbrace ∷ first_fields fs

  pub first_items : Items → List Token
  first_items no_items = Token.rbracket ∷ []
  first_items (item n xs) = tokens n ++ more_items xs

  pub more_items : Items → List Token
  more_items no_items = Token.rbracket ∷ []
  more_items (item n xs) = Token.comma ∷ (tokens n ++ more_items xs)

  pub first_fields : Fields → List Token
  first_fields no_fields = Token.rbrace ∷ []
  first_fields (field k n fs) = Token.string ∷ Token.colon ∷ (tokens n ++ more_fields fs)

  pub more_fields : Fields → List Token
  more_fields no_fields = Token.rbrace ∷ []
  more_fields (field k n fs) =
      Token.comma ∷ Token.string ∷ Token.colon ∷ (tokens n ++ more_fields fs)

unfoldable mutual
  pub values : Node → List TokenValue
  values (Node.string s) = TokenValue.str s ∷ []
  values (Node.number n) = TokenValue.integer n ∷ []
  values (Node.fnumber x) = TokenValue.floating x ∷ []
  values (Node.boolean b) = TokenValue.boolean b ∷ []
  values Node.null = []
  values (Node.array xs) = values_items xs
  values (Node.obj fs) = values_fields fs

  pub values_items : Items → List TokenValue
  values_items no_items = []
  values_items (item n xs) = values n ++ values_items xs

  pub values_fields : Fields → List TokenValue
  values_fields no_fields = []
  values_fields (field k n fs) = TokenValue.str k ∷ (values n ++ values_fields fs)

unfoldable mutual
  pub depth : Node → ℕ
  depth (Node.array xs) = suc (depth_items xs)
  depth (Node.obj fs) = suc (depth_fields fs)
  depth other = 1

  pub depth_items : Items → ℕ
  depth_items no_items = 0
  depth_items (item n xs) = max (depth n) (depth_items xs)

  pub depth_fields : Fields → ℕ
  depth_fields no_fields = 0
  depth_fields (field k n fs) = max (depth n) (depth_fields fs)

-- The elements in front of others.
unfoldable pub join_items : Items → Items → Items
join_items no_items ys = ys
join_items (item n xs) ys = item n (join_items xs ys)

unfoldable pub join_fields : Fields → Fields → Fields
join_fields no_fields ys = ys
join_fields (field k n fs) ys = field k n (join_fields fs ys)

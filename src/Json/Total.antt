-- ===== src/Json/Total.antt =====
-- What the lexer hands over never makes the parser read outside its tokens and values.
use mcsrv.Common.{
  ℕ, zero, suc, ◌+◌, ◌*◌, ◌≤◌, ◌<◌, ◌≡◌, refl, ◌∙◌, List, [], ◌∷◌, Option, some, none, length, leb,
  false, Bool-cases, inl, inr, arith,
}
use mcsrv.Common.Outcome.{ok}
use mcsrv.Json.Node.{JsonType, Node, json_node_create, json_node_putn, json_node_addn}
use mcsrv.Json.Parser.{
  Token, TokenValue, ParsingInfo, Parsed, types, peek_token, pop_token, pop_value, json_set_value,
  name_of, scalar, json_analyze, json_analyze_obj, members, json_analyze_array, elements,
}

-- The value that goes with a token.
abbrev pub IsTyped : Token → TokenValue → Type 0
IsTyped Token.string (TokenValue.str s) = Unit
IsTyped Token.int (TokenValue.integer n) = Unit
IsTyped Token.float (TokenValue.floating x) = Unit
IsTyped Token.bool (TokenValue.boolean b) = Unit
IsTyped Token.string v = ⊥
IsTyped Token.int v = ⊥
IsTyped Token.float v = ⊥
IsTyped Token.bool v = ⊥
IsTyped t v = Unit

-- There is an end of the text, and up to it each token that has a value finds it.
abbrev pub Aligned : List Token → List TokenValue → Type 0
Aligned [] vs = ⊥
Aligned (Token.eof ∷ ts) vs = Unit
Aligned (Token.string ∷ ts) [] = ⊥
Aligned (Token.int ∷ ts) [] = ⊥
Aligned (Token.float ∷ ts) [] = ⊥
Aligned (Token.bool ∷ ts) [] = ⊥
Aligned (Token.string ∷ ts) (v ∷ vs) = IsTyped Token.string v × Aligned ts vs
Aligned (Token.int ∷ ts) (v ∷ vs) = IsTyped Token.int v × Aligned ts vs
Aligned (Token.float ∷ ts) (v ∷ vs) = IsTyped Token.float v × Aligned ts vs
Aligned (Token.bool ∷ ts) (v ∷ vs) = IsTyped Token.bool v × Aligned ts vs
Aligned (t ∷ ts) vs = Aligned ts vs

abbrev info : List Token → List TokenValue → ParsingInfo
info ts vs = record { tok_list = ts; tok_values = vs }

-- A call that returns; with a node, fewer tokens than `bound` are left, and they are aligned.
abbrev Left : ℕ → Option Node → List Token → List TokenValue → Type 0
Left bound none ts vs = Unit
Left bound (some n) ts vs = (length ts < bound) × Aligned ts vs

abbrev Returns : ℕ → Parsed → Type 0
Returns bound r =
    (out : Option Node) × (ts : List Token) × (vs : List TokenValue) × (r ≡ ok (out, info ts vs))
    × Left bound out ts vs

Left-le :
    (a b : ℕ) (out : Option Node) (ts : List Token) (vs : List TokenValue)
    → a ≤ b
    → Left a out ts vs
    → Left b out ts vs
Left-le a b none ts vs h l = tt
Left-le a b (some n) ts vs h (lt, al) = (omega arith, al)

Returns-le : (a b : ℕ) (r : Parsed) → a ≤ b → Returns a r → Returns b r
Returns-le a b r h (out, ts, vs, e, l) = (out, ts, vs, e, Left-le a b out ts vs h l)

scalar-string :
    (ts : List Token) (v : TokenValue) (vs : List TokenValue)
    → IsTyped Token.string v
    → Aligned ts vs
    → Returns (suc (length ts)) (scalar Token.string (info ts (v ∷ vs)))
unfolding scalar types pop_value json_node_create json_set_value
scalar-string ts (TokenValue.str s) vs h al = (some _, ts, vs, refl, (omega arith, al))
scalar-string ts (TokenValue.integer s) vs h al = absurd h
scalar-string ts (TokenValue.floating s) vs h al = absurd h
scalar-string ts (TokenValue.boolean s) vs h al = absurd h

scalar-int :
    (ts : List Token) (v : TokenValue) (vs : List TokenValue)
    → IsTyped Token.int v
    → Aligned ts vs
    → Returns (suc (length ts)) (scalar Token.int (info ts (v ∷ vs)))
unfolding scalar types pop_value json_node_create json_set_value
scalar-int ts (TokenValue.integer s) vs h al = (some _, ts, vs, refl, (omega arith, al))
scalar-int ts (TokenValue.str s) vs h al = absurd h
scalar-int ts (TokenValue.floating s) vs h al = absurd h
scalar-int ts (TokenValue.boolean s) vs h al = absurd h

scalar-float :
    (ts : List Token) (v : TokenValue) (vs : List TokenValue)
    → IsTyped Token.float v
    → Aligned ts vs
    → Returns (suc (length ts)) (scalar Token.float (info ts (v ∷ vs)))
unfolding scalar types pop_value json_node_create json_set_value
scalar-float ts (TokenValue.floating s) vs h al = (some _, ts, vs, refl, (omega arith, al))
scalar-float ts (TokenValue.str s) vs h al = absurd h
scalar-float ts (TokenValue.integer s) vs h al = absurd h
scalar-float ts (TokenValue.boolean s) vs h al = absurd h

scalar-bool :
    (ts : List Token) (v : TokenValue) (vs : List TokenValue)
    → IsTyped Token.bool v
    → Aligned ts vs
    → Returns (suc (length ts)) (scalar Token.bool (info ts (v ∷ vs)))
unfolding scalar types pop_value json_node_create json_set_value
scalar-bool ts (TokenValue.boolean s) vs h al = (some _, ts, vs, refl, (omega arith, al))
scalar-bool ts (TokenValue.str s) vs h al = absurd h
scalar-bool ts (TokenValue.integer s) vs h al = absurd h
scalar-bool ts (TokenValue.floating s) vs h al = absurd h

-- What `json_analyze` does below the nesting limit, by the first token.
abbrev dispatch : ℕ → ℕ → Token → ParsingInfo → Parsed
dispatch fuel level Token.lbrace i = json_analyze_obj fuel level i
dispatch fuel level Token.lbracket i = json_analyze_array fuel level i
dispatch fuel level Token.string i = scalar Token.string i
dispatch fuel level Token.int i = scalar Token.int i
dispatch fuel level Token.float i = scalar Token.float i
dispatch fuel level Token.bool i = scalar Token.bool i
dispatch fuel level Token.null i = ok (some Node.null, i)
dispatch fuel level other i = ok (none, i)

dispatch_lem :
    (fuel level : ℕ) (t : Token) (ts : List Token) (vs : List TokenValue)
    → leb 32 level ≡ false
    → json_analyze (suc fuel) level (info (t ∷ ts) vs) ≡ dispatch fuel level t (info ts vs)
unfolding json_analyze pop_token json_node_create
dispatch_lem fuel level Token.lbrace ts vs e = rw (json_analyze, e) refl
dispatch_lem fuel level t ts vs e = rw (json_analyze, e) refl

entered :
    (fuel level bound : ℕ) (t : Token) (ts : List Token) (vs : List TokenValue)
    → Returns bound (dispatch fuel level t (info ts vs))
    → Returns bound (json_analyze (suc fuel) level (info (t ∷ ts) vs))
entered fuel level bound t ts vs (out, us, ws, e, l) = elim (Bool-cases (leb 32 level)) [
  | inl deep ↦ (none, t ∷ ts, vs, (unfold json_analyze in rw (json_analyze, deep) refl), tt)
  | inr fine ↦ (out, us, ws, dispatch_lem fuel level t ts vs fine ∙ e, l)
]

member_Returns :
    (fuel level : ℕ) (node : Node) (k : List ℕ) (ts : List Token) (vs : List TokenValue)
    (out : Option Node) (us : List Token) (ws : List TokenValue)
    → json_analyze fuel (level + 1) (info ts vs) ≡ ok (out, info us ws)
    → Left (length ts) out us ws
    → ((node' : Node) (us' : List Token) (ws' : List TokenValue)
        → Aligned us' ws'
        → length us' < length ts
        → Returns (length us') (members fuel level node' (info us' ws')))
    → Returns (suc (suc (length ts))) (
        members
          (suc fuel)
          level
          node
          (info (Token.string ∷ Token.colon ∷ ts) (TokenValue.str k ∷ vs)))
unfolding members pop_token pop_value name_of
member_Returns fuel level node k ts vs none us ws e l later = (none, us, ws, rw e refl, tt)
member_Returns fuel level node k ts vs (some n) [] ws e (lt, al) later = absurd al
member_Returns fuel level node k ts vs (some n) (Token.comma ∷ us) ws e (lt, al) later =
    let (out, us', ws', f, l) = later (json_node_putn node k n) us ws al (omega arith) in
    (out, us', ws', rw e f, Left-le (length us) (suc (suc (length ts))) out us' ws' (omega arith) l)
member_Returns fuel level node k ts vs (some n) (Token.rbrace ∷ us) ws e (lt, al) later =
    (some (json_node_putn node k n), us, ws, rw e refl, (omega arith, al))
member_Returns fuel level node k ts vs (some n) (t ∷ us) ws e l later =
    (none, us, ws, rw e refl, tt)

element_Returns :
    (fuel level : ℕ) (node : Node) (ts : List Token) (vs : List TokenValue) (out : Option Node)
    (us : List Token) (ws : List TokenValue)
    → json_analyze fuel (level + 1) (info ts vs) ≡ ok (out, info us ws)
    → Left (length ts) out us ws
    → ((node' : Node) (us' : List Token) (ws' : List TokenValue)
        → Aligned us' ws'
        → length us' < length ts
        → Returns (length us') (elements fuel level node' (info us' ws')))
    → Returns (length ts) (elements (suc fuel) level node (info ts vs))
unfolding elements pop_token
element_Returns fuel level node ts vs none us ws e l later = (none, us, ws, rw e refl, tt)
element_Returns fuel level node ts vs (some n) [] ws e (lt, al) later = absurd al
element_Returns fuel level node ts vs (some n) (Token.comma ∷ us) ws e (lt, al) later =
    let (out, us', ws', f, l) = later (json_node_addn node n) us ws al (omega arith) in
    (out, us', ws', rw e f, Left-le (length us) (length ts) out us' ws' (omega arith) l)
element_Returns fuel level node ts vs (some n) (Token.rbracket ∷ us) ws e (lt, al) later =
    (some (json_node_addn node n), us, ws, rw e refl, (omega arith, al))
element_Returns fuel level node ts vs (some n) (t ∷ us) ws e l later = (none, us, ws, rw e refl, tt)

mutual
  unfolding json_analyze pop_token peek_token pop_value name_of

  analyze_Returns :
      (fuel level : ℕ) (ts : List Token) (vs : List TokenValue)
      → Aligned ts vs
      → 3 * length ts ≤ fuel
      → Returns (length ts) (json_analyze fuel level (info ts vs))
  analyze_Returns fuel level [] vs al enough = absurd al
  analyze_Returns zero level (t ∷ ts) vs al enough = absurd (omega arith)
  analyze_Returns (suc fuel) level (Token.lbrace ∷ ts) vs al enough =
      entered fuel level _ Token.lbrace ts vs (
        Returns-le (length ts) (suc (length ts)) _ (omega arith)
          (obj_Returns fuel level ts vs al (omega arith)))
  analyze_Returns (suc fuel) level (Token.lbracket ∷ ts) vs al enough =
      entered fuel level _ Token.lbracket ts vs (
        Returns-le (length ts) (suc (length ts)) _ (omega arith)
          (array_Returns fuel level ts vs al (omega arith)))
  analyze_Returns (suc fuel) level (Token.string ∷ ts) [] al enough = absurd al
  analyze_Returns (suc fuel) level (Token.string ∷ ts) (v ∷ vs) (h, al) enough =
      entered fuel level _ Token.string ts (v ∷ vs) (scalar-string ts v vs h al)
  analyze_Returns (suc fuel) level (Token.int ∷ ts) [] al enough = absurd al
  analyze_Returns (suc fuel) level (Token.int ∷ ts) (v ∷ vs) (h, al) enough =
      entered fuel level _ Token.int ts (v ∷ vs) (scalar-int ts v vs h al)
  analyze_Returns (suc fuel) level (Token.float ∷ ts) [] al enough = absurd al
  analyze_Returns (suc fuel) level (Token.float ∷ ts) (v ∷ vs) (h, al) enough =
      entered fuel level _ Token.float ts (v ∷ vs) (scalar-float ts v vs h al)
  analyze_Returns (suc fuel) level (Token.bool ∷ ts) [] al enough = absurd al
  analyze_Returns (suc fuel) level (Token.bool ∷ ts) (v ∷ vs) (h, al) enough =
      entered fuel level _ Token.bool ts (v ∷ vs) (scalar-bool ts v vs h al)
  analyze_Returns (suc fuel) level (Token.null ∷ ts) vs al enough =
      entered fuel level _ Token.null ts vs (some Node.null, ts, vs, refl, (omega arith, al))
  analyze_Returns (suc fuel) level (t ∷ ts) vs al enough =
      entered fuel level _ t ts vs (none, ts, vs, refl, tt)

  obj_Returns :
      (fuel level : ℕ) (ts : List Token) (vs : List TokenValue)
      → Aligned ts vs
      → 2 + 3 * length ts ≤ fuel
      → Returns (length ts) (json_analyze_obj fuel level (info ts vs))
  obj_Returns fuel level [] vs al enough = absurd al
  obj_Returns zero level (t ∷ ts) vs al enough = absurd (omega arith)
  obj_Returns (suc fuel) level (Token.rbrace ∷ ts) vs al enough =
      (some _, ts, vs, refl, (omega arith, al))
  obj_Returns (suc fuel) level (t ∷ ts) vs al enough =
      members-Returns fuel level (json_node_create JsonType.object_type) (t ∷ ts) vs al
        (omega arith)

  members-Returns :
      (fuel level : ℕ) (node : Node) (ts : List Token) (vs : List TokenValue)
      → Aligned ts vs
      → 1 + 3 * length ts ≤ fuel
      → Returns (length ts) (members fuel level node (info ts vs))
  members-Returns fuel level node [] vs al enough = absurd al
  members-Returns zero level node (t ∷ ts) vs al enough = absurd (omega arith)
  members-Returns (suc fuel) level node (Token.string ∷ ts) [] al enough = absurd al
  members-Returns (suc fuel) level node (Token.string ∷ []) (v ∷ vs) (h, al) enough = absurd al
  members-Returns (suc fuel) level node (Token.string ∷ Token.colon ∷ ts) (TokenValue.str k ∷ vs)
        (h, al) enough =
      let (out, us, ws, e, l) = analyze_Returns fuel (level + 1) ts vs al (omega arith) in
      member_Returns fuel level node k ts vs out us ws e l
        (λ node' us' ws' al' short. members-Returns fuel level node' us' ws' al' (omega arith))
  members-Returns (suc fuel) level node (Token.string ∷ Token.colon ∷ ts) (v ∷ vs) (h, al) enough =
      absurd h
  members-Returns (suc fuel) level node (Token.string ∷ t ∷ ts) (v ∷ vs) al enough =
      (none, ts, vs, refl, tt)
  members-Returns (suc fuel) level node (t ∷ ts) vs al enough = (none, ts, vs, refl, tt)

  array_Returns :
      (fuel level : ℕ) (ts : List Token) (vs : List TokenValue)
      → Aligned ts vs
      → 2 + 3 * length ts ≤ fuel
      → Returns (length ts) (json_analyze_array fuel level (info ts vs))
  array_Returns fuel level [] vs al enough = absurd al
  array_Returns zero level (t ∷ ts) vs al enough = absurd (omega arith)
  array_Returns (suc fuel) level (Token.rbracket ∷ ts) vs al enough =
      (some _, ts, vs, refl, (omega arith, al))
  array_Returns (suc fuel) level (t ∷ ts) vs al enough =
      elements-Returns fuel level (json_node_create JsonType.array_type) (t ∷ ts) vs al
        (omega arith)

  elements-Returns :
      (fuel level : ℕ) (node : Node) (ts : List Token) (vs : List TokenValue)
      → Aligned ts vs
      → 1 + 3 * length ts ≤ fuel
      → Returns (length ts) (elements fuel level node (info ts vs))
  elements-Returns zero level node [] vs al enough = absurd al
  elements-Returns zero level node (t ∷ ts) vs al enough = absurd (omega arith)
  elements-Returns (suc fuel) level node ts vs al enough =
      let (out, us, ws, e, l) = analyze_Returns fuel (level + 1) ts vs al (omega arith) in
      element_Returns fuel level node ts vs out us ws e l
        (λ node' us' ws' al' short. elements-Returns fuel level node' us' ws' al' (omega arith))

-- On tokens with an end of the text among them, in front of which each token that has a value finds
-- one of its type, the parser returns a node or NULL: it neither reads behind the tokens or the
-- values nor takes a member of the union that was not written, whatever the order of the tokens in
-- front; three times as much fuel as there are tokens is enough.
pub json_analyze-returns :
    (fuel : ℕ) (ts : List Token) (vs : List TokenValue)
    → Aligned ts vs
    → 3 * length ts ≤ fuel
    → (out : Option Node) × (info' : ParsingInfo) × (json_analyze fuel 0
          (record { tok_list = ts; tok_values = vs })
        ≡ ok (out, info'))
json_analyze-returns fuel ts vs al enough =
    let (out, us, ws, e, l) = analyze_Returns fuel 0 ts vs al enough in (out, info us ws, e)

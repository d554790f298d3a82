-- ===== src/Json/RoundTrip.antt =====
-- The parser rebuilds every tree that is not too deep from its tokens.
use mcsrv.Common.{
  ℕ, zero, suc, ◌+◌, ◌*◌, ◌≤◌, ◌<◌, ◌≡◌, refl, ap, ◌∙◌, List, ◌∷◌, ◌++◌, append_assoc, some, length,
  leb, false, arith, length-append,
}
use mcsrv.Common.Outcome.{ok}
use mcsrv.Json.Node.{
  Node, Items, Fields, no_items, item, no_fields, field, add_item, put_field, json_node_create,
  json_node_putn, json_node_addn, json_set_int, json_set_double, json_set_bool, json_set_str_direct,
}
use mcsrv.Json.Parser.{
  Token, TokenValue, ParsingInfo, types, peek_token, pop_token, pop_value, json_set_value, name_of,
  scalar, json_analyze, json_analyze_obj, members, json_analyze_array, elements,
}
use mcsrv.Json.Tokens.{
  tokens, first_items, more_items, first_fields, more_fields, values, values_items, values_fields,
  depth, depth_items, depth_fields, join_items, join_fields,
}

join-add : (xs ys : Items) (n : Node) → join_items (add_item xs n) ys ≡ join_items xs (item n ys)
unfolding join_items add_item
join-add no_items ys n = refl
join-add (item m xs) ys n = rw (join-add xs ys n) refl

join-put :
    (xs ys : Fields) (k : List ℕ) (n : Node)
    → join_fields (put_field xs k n) ys ≡ join_fields xs (field k n ys)
unfolding join_fields put_field
join-put no_fields ys k n = refl
join-put (field j m xs) ys k n = rw (join-put xs ys k n) refl

length-tokens_pos : (n : Node) → 0 < length (tokens n)
unfolding tokens
length-tokens_pos (Node.string s) = omega arith
length-tokens_pos other = omega arith

abbrev info : List Token → List TokenValue → ParsingInfo
info ts vs = record { tok_list = ts; tok_values = vs }

regroup :
    (ss bs ts : List Token) (cs ds vs : List TokenValue)
    → info ((ss ++ bs) ++ ts) ((cs ++ ds) ++ vs) ≡ info (ss ++ (bs ++ ts)) (cs ++ (ds ++ vs))
regroup ss bs ts cs ds vs = rw (append_assoc ss bs ts, append_assoc cs ds vs) refl

below_max : (level : ℕ) → level < 32 → leb 32 level ≡ false
below_max level h = ground arith

added : (xs : Items) (n : Node) → add_item xs n ≡ join_items xs (item n no_items)
unfolding join_items add_item
added no_items n = refl
added (item m xs) n = rw (added xs n) refl

put :
    (fs : Fields) (k : List ℕ) (n : Node) → put_field fs k n ≡ join_fields fs (field k n no_fields)
unfolding join_fields put_field
put no_fields k n = refl
put (field j m fs) k n = rw (put fs k n) refl

not_closed :
    (n : Node) (fuel level : ℕ) (ts : List Token) (vs : List TokenValue)
    → json_analyze_array (suc fuel) level (info (tokens n ++ ts) vs)
      ≡ elements fuel level (Node.array no_items) (info (tokens n ++ ts) vs)
unfolding json_analyze tokens peek_token json_node_create
not_closed (Node.string s) fuel level ts vs = refl
not_closed (Node.number s) fuel level ts vs = refl
not_closed (Node.fnumber s) fuel level ts vs = refl
not_closed (Node.boolean s) fuel level ts vs = refl
not_closed Node.null fuel level ts vs = refl
not_closed (Node.array xs) fuel level ts vs = refl
not_closed (Node.obj fs) fuel level ts vs = refl

mutual
  unfolding join_items join_fields tokens values depth json_analyze types peek_token pop_token
      pop_value json_set_value name_of scalar json_node_create json_node_putn json_node_addn
      json_set_int json_set_double json_set_bool json_set_str_direct

  analyze_node :
      (n : Node) (fuel level : ℕ) (ts : List Token) (vs : List TokenValue)
      → 2 * length (tokens n) ≤ fuel
      → level + depth n ≤ 32
      → json_analyze fuel level (info (tokens n ++ ts) (values n ++ vs)) ≡ ok (some n, info ts vs)
  analyze_node n zero level ts vs enough room = absurd (omega (arith, length-tokens_pos n))
  analyze_node (Node.string s) (suc fuel) level ts vs enough room =
      rw (json_analyze, below_max level (omega arith)) refl
  analyze_node (Node.number n) (suc fuel) level ts vs enough room =
      rw (json_analyze, below_max level (omega arith)) refl
  analyze_node (Node.fnumber x) (suc fuel) level ts vs enough room =
      rw (json_analyze, below_max level (omega arith)) refl
  analyze_node (Node.boolean b) (suc fuel) level ts vs enough room =
      rw (json_analyze, below_max level (omega arith)) refl
  analyze_node Node.null (suc fuel) level ts vs enough room =
      rw (json_analyze, below_max level (omega arith)) refl
  analyze_node (Node.array xs) (suc fuel) level ts vs enough room =
      rw (json_analyze, below_max level (omega arith))
        (analyze_items xs fuel level ts vs (omega arith) (omega arith))
  analyze_node (Node.obj fs) (suc fuel) level ts vs enough room =
      rw (json_analyze, below_max level (omega arith))
        (analyze_fields fs fuel level ts vs (omega arith) (omega arith))

  analyze_items :
      (xs : Items) (fuel level : ℕ) (ts : List Token) (vs : List TokenValue)
      → suc (2 * length (first_items xs)) ≤ fuel
      → suc (level + depth_items xs) ≤ 32
      → json_analyze_array fuel level (info (first_items xs ++ ts) (values_items xs ++ vs))
        ≡ ok (some (Node.array xs), info ts vs)
  analyze_items no_items zero level ts vs enough room = absurd (omega arith)
  analyze_items no_items (suc fuel) level ts vs enough room = refl
  analyze_items (item n xs) zero level ts vs enough room = absurd (omega arith)
  analyze_items (item n xs) (suc fuel) level ts vs enough room =
      ap (json_analyze_array (suc fuel) level)
        (regroup (tokens n) (more_items xs) ts (values n) (values_items xs) vs)
      ∙ (not_closed n fuel level (more_items xs ++ ts) (values n ++ (values_items xs ++ vs))
          ∙ analyze_elements n xs no_items fuel level ts vs (omega arith) room)

  analyze_elements :
      (n : Node) (xs acc : Items) (fuel level : ℕ) (ts : List Token) (vs : List TokenValue)
      → 2 * length (tokens n ++ more_items xs) ≤ fuel
      → suc (level + depth_items (item n xs)) ≤ 32
      → elements fuel level
          (Node.array acc)
          (info (tokens n ++ (more_items xs ++ ts)) (values n ++ (values_items xs ++ vs)))
        ≡ ok (some (Node.array (join_items acc (item n xs))), info ts vs)
  analyze_elements n xs acc zero level ts vs enough room =
      absurd (omega (arith, length-tokens_pos n, length-append (tokens n) (more_items xs)))
  analyze_elements n no_items acc (suc fuel) level ts vs enough room =
      rw
        (analyze_node n fuel (level + 1) (Token.rbracket ∷ ts) vs
          (omega (arith, length-append (tokens n) (more_items no_items))) (omega arith))
        (ap (λ ys. ok (some (Node.array ys), info ts vs)) (added acc n))
  analyze_elements n (item m xs) acc (suc fuel) level ts vs enough room =
      rw
        (
          append_assoc (tokens m) (more_items xs) ts,
          append_assoc (values m) (values_items xs) vs,
          analyze_node n fuel (level + 1) (Token.comma ∷ (tokens m ++ (more_items xs ++ ts)))
              (values m ++ (values_items xs ++ vs))
              (omega (arith, length-append (tokens n) (more_items (item m xs)))) (omega arith),
        )
        (analyze_elements m xs (add_item acc n) fuel level ts vs
            (omega (arith, length-append (tokens n) (more_items (item m xs)))) (omega arith)
          ∙ ap (λ ys. ok (some (Node.array ys), info ts vs)) (join-add acc (item m xs) n))

  analyze_fields :
      (fs : Fields) (fuel level : ℕ) (ts : List Token) (vs : List TokenValue)
      → suc (2 * length (first_fields fs)) ≤ fuel
      → suc (level + depth_fields fs) ≤ 32
      → json_analyze_obj fuel level (info (first_fields fs ++ ts) (values_fields fs ++ vs))
        ≡ ok (some (Node.obj fs), info ts vs)
  analyze_fields no_fields zero level ts vs enough room = absurd (omega arith)
  analyze_fields no_fields (suc fuel) level ts vs enough room = refl
  analyze_fields (field k n fs) zero level ts vs enough room = absurd (omega arith)
  analyze_fields (field k n fs) (suc fuel) level ts vs enough room =
      rw
        (append_assoc (tokens n) (more_fields fs) ts, append_assoc (values n) (values_fields fs) vs)
        (analyze_members k n fs no_fields fuel level ts vs (omega arith) room)

  analyze_members :
      (k : List ℕ) (n : Node) (fs acc : Fields) (fuel level : ℕ) (ts : List Token)
      (vs : List TokenValue)
      → 2 * length (tokens n ++ more_fields fs) ≤ fuel
      → suc (level + depth_fields (field k n fs)) ≤ 32
      → members fuel level (Node.obj acc) (
          info
            (Token.string ∷ Token.colon ∷ (tokens n ++ (more_fields fs ++ ts)))
            (TokenValue.str k ∷ (values n ++ (values_fields fs ++ vs))))
        ≡ ok (some (Node.obj (join_fields acc (field k n fs))), info ts vs)
  analyze_members k n fs acc zero level ts vs enough room =
      absurd (omega (arith, length-tokens_pos n, length-append (tokens n) (more_fields fs)))
  analyze_members k n no_fields acc (suc fuel) level ts vs enough room =
      rw
        (analyze_node n fuel (level + 1) (Token.rbrace ∷ ts) vs
          (omega (arith, length-append (tokens n) (more_fields no_fields))) (omega arith))
        (ap (λ ys. ok (some (Node.obj ys), info ts vs)) (put acc k n))
  analyze_members k n (field j m fs) acc (suc fuel) level ts vs enough room =
      rw
        (
          append_assoc (tokens m) (more_fields fs) ts,
          append_assoc (values m) (values_fields fs) vs,
          analyze_node n fuel (level + 1)
              (Token.comma ∷ Token.string ∷ Token.colon ∷ (tokens m ++ (more_fields fs ++ ts)))
              (TokenValue.str j ∷ (values m ++ (values_fields fs ++ vs)))
              (omega (arith, length-append (tokens n) (more_fields (field j m fs)))) (omega arith),
        )
        (analyze_members j m fs (put_field acc k n) fuel level ts vs
            (omega (arith, length-append (tokens n) (more_fields (field j m fs)))) (omega arith)
          ∙ ap (λ ys. ok (some (Node.obj ys), info ts vs)) (join-put acc (field j m fs) k n))

-- A tree of depth up to 32 is rebuilt from its tokens and values, whatever follows them, which is
-- left to be read; twice as much fuel as there are tokens is enough.
pub json_analyze-tokens :
    (n : Node) (fuel : ℕ) (ts : List Token) (vs : List TokenValue)
    → 2 * length (tokens n) ≤ fuel
    → depth n ≤ 32
    → json_analyze fuel 0 (record { tok_list = tokens n ++ ts; tok_values = values n ++ vs })
      ≡ ok (some n, record { tok_list = ts; tok_values = vs })
json_analyze-tokens n fuel ts vs enough room =
    analyze_node n fuel 0 ts vs enough (omega (arith, room))

-- ===== src/Json.antt =====
-- data/json.h, data/json.c and data/json_parse.c: the tree of a JSON text, the tokens of the text,
-- and the parser.
-- A string is the list of its bytes and a double is its bit pattern. The array's vector is the list
-- of its elements; an object is the list of the puts made on its dictionary, oldest first, from which
-- a lookup makes the dictionary. The arena that the tree lives in is taken to be large enough. The
-- log is left out.
pub mod Node
pub mod Parser
pub mod Lexer
pub mod Tokens
pub mod RoundTrip
pub mod Total
pub mod Lookup
pub mod Lexed
pub mod Minus
mod Tests

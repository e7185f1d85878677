-- ===== src/Gemini/Stops.antt =====
-- pkg/adapter/gemini.go: `applyAnthropicStopSequences`, which cuts the texts of a converted response.
-- A string is compared by its characters.
pub mod Laws
mod Tests
use Prim.Native.Char.{Char}
use aadapter.Base.{
  ℕ, String, Bool, Option, none, some, List, [], ◌∷◌, ◌++◌, map, length, ◌==◌, if◌then◌else◌,
  str_eq, chars, of_chars, same_char,
}
use aadapter.Base.Maps.{get, put}
use aadapter.Json.{str, Object, string_or_empty}
use aadapter.StopFilter.{TextStopFilter, new_text_stop_filter, feed, flush, is_empty}
use aadapter.Gemini.Response.{Response}

abbrev pub is_text : Object → Bool
is_text block = str_eq (string_or_empty (get "type" block)) "text"

abbrev pub text_of : Object → List Char
text_of block = chars (string_or_empty (get "text" block))

abbrev pub with_text : List Char → Object → Object
with_text text block = put "text" (str (of_chars text)) block

-- What the filter holds back goes to the last block, if that is a text.
unfoldable pub append_last : List Char → List Object → List Object
append_last tail [] = []
append_last tail (b ∷ []) = (if is_text b then with_text (text_of b ++ tail) b else b) ∷ []
append_last tail (b ∷ d ∷ bs) = b ∷ append_last tail (d ∷ bs)

unfoldable pub append_tail : List Char → List Object → List Object
append_tail tail result = if is_empty tail then result else append_last tail result

-- The loop over the blocks: the content, and the sequence that matched, `[]` for none.
unfoldable pub cut_blocks :
    TextStopFilter Char → List Object → List Object → List Object × List Char
cut_blocks f [] result = (append_tail (flush f).1 result, [])
cut_blocks f (block ∷ rest) result =
    let (f', visible, matched) = feed same_char f (text_of block) in
    let shown = result ++ with_text visible block ∷ [] in
    let after_text = cut_blocks f' rest shown in
    let after_other = cut_blocks (flush f).0 rest (append_tail (flush f).1 result ++ block ∷ []) in
    if is_text block
    then (if is_empty matched then after_text else (shown, matched))
    else after_other

-- The response, and the value of `stop_sequence`, `none` for nil.
unfoldable pub apply_stop_sequences : List String → Response → Response × Option String
apply_stop_sequences sequences response =
    let filter = new_text_stop_filter (map chars sequences) in
    let (content, matched) = cut_blocks filter response.content [] in
    if length sequences == 0
    then (response, none)
    else if is_empty matched
    then (record response { content = content }, none)
    else (
      record response { content = content; stop_reason = "stop_sequence" },
      some (of_chars matched),
    )

-- ===== src/Routing/Request.antt =====
-- What `routing/selector.py` reads of a request body: messages, tokens, images, tools and the score.
use hermes_auto.Json.{
  Value, null, bool, int, float, str, arr, obj, Items, nil, cons, Fields, end, field, get, has_key,
  length_items, reverse_items,
}
use hermes_auto.Json.Dumps.{dumps}
use hermes_auto.Prelude.{
  ℕ, ◌+◌, ◌/◌, String, Bool, true, false, ◌||◌, Option, none, some, ◌==◌, leb, if◌then◌else◌,
}
use hermes_auto.Text.{contains, len, lower}

-- `_messages`: the list under the key, and an empty one for anything else
unfoldable pub messages : Fields → Items
unfolding get
messages body = elim (get "messages" body) [ some (arr xs) ↦ xs | _ ↦ nil ]

-- `math.ceil(len(serialized) / 4)`
unfoldable pub estimate_input_tokens : Fields → ℕ
unfolding messages dumps len
estimate_input_tokens body = (len (dumps (arr (messages body))) + 3) / 4

-- `value == text`, for a value that may be absent
abbrev pub is_text : String → Option Value → Bool
is_text t (some (str s)) = s == t
is_text t _ = false

-- the loop of `_latest_user_message`, over the reversed messages
unfoldable pub first_user : Items → Option Fields
unfolding get
first_user nil = none
first_user (cons (obj m) vs) = if is_text "user" (get "role" m) then some m else first_user vs
first_user (cons v vs) = first_user vs

unfoldable pub latest_user_message : Fields → Option Fields
unfolding first_user messages reverse_items
latest_user_message body = first_user (reverse_items (messages body) nil)

unfoldable pub content_length_and_fence : Value → ℕ × Bool
unfolding contains dumps len
content_length_and_fence (str s) = (len s, contains "```" s)
content_length_and_fence v = (len (dumps v), contains "```" (dumps v))

-- `_text_length_and_fence`
unfoldable pub text_length_and_fence : Option Fields → ℕ × Bool
unfolding content_length_and_fence get
text_length_and_fence none = (0, false)
text_length_and_fence (some m) = elim (get "content" m) [
  | none ↦ content_length_and_fence (str "")
  | some v ↦ content_length_and_fence v
]

-- `_IMAGE_TYPES`
unfoldable pub is_image_type : Option Value → Bool
unfolding lower
is_image_type (some (str s)) =
    let t = lower s in t == "image" || t == "image_url" || t == "input_image"
is_image_type _ = false

-- `_contains_image`, on a value, on the items of a list and on the values of a mapping
unfoldable mutual
  unfolding is_image_type get has_key

  pub contains_image : Value → Bool
  contains_image null = false
  contains_image (bool b) = false
  contains_image (int n) = false
  contains_image (float s) = false
  contains_image (str s) = false
  contains_image (arr vs) = any_image vs
  contains_image (obj fs) =
      is_image_type (get "type" fs)
      || has_key "image_url" fs
      || has_key "input_image" fs
      || any_image_field fs

  pub any_image : Items → Bool
  any_image nil = false
  any_image (cons v vs) = contains_image v || any_image vs

  pub any_image_field : Fields → Bool
  any_image_field end = false
  any_image_field (field k v fs) = contains_image v || any_image_field fs

unfoldable pub has_image_input : Fields → Bool
unfolding contains_image messages
has_image_input body = contains_image (arr (messages body))

unfoldable pub declares_tools : Fields → Bool
unfolding get
declares_tools body = elim (get "tools" body) [ some (arr (cons v vs)) ↦ true | _ ↦ false ]

-- `complexity_score` from what it reads of the body
unfoldable pub score_of : Bool → ℕ × Bool → ℕ → Bool → ℕ → ℕ
score_of tools (length, has_fence) tokens image messages =
    let score = if tools then 1 else 0 in
    let score = if leb 1500 length || has_fence then score + 1 else score in
    let score =
      if leb 8000 tokens then score + 2 else if leb 2000 tokens then score + 1 else score in
    let score = if image then score + 2 else score in if leb 20 messages then score + 1 else score

unfoldable pub complexity_score : Fields → ℕ
unfolding score_of declares_tools text_length_and_fence latest_user_message estimate_input_tokens
    has_image_input messages length_items
complexity_score body =
    score_of (declares_tools body) (text_length_and_fence (latest_user_message body))
      (estimate_input_tokens body) (has_image_input body) (length_items (messages body))

-- `_latest_role`: the reversed messages' first role
unfoldable pub role_of : Items → String
unfolding get
role_of (cons (obj m) vs) = elim (get "role" m) [ some (str s) ↦ s | _ ↦ "" ]
role_of _ = ""

unfoldable pub latest_role : Fields → String
unfolding role_of messages reverse_items
latest_role body = role_of (reverse_items (messages body) nil)

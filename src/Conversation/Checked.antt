-- ===== src/Conversation/Checked.antt =====
-- What the checks of conversation.py have found when they pass.
use gpt_trace_extractor_for.Base.{
  String, ◌≡◌, refl, sym, ap, ◌∙◌, Bool, true, false, ◌||◌, List, [], ◌∷◌, ◌++◌, All, arith, ◌==◌,
  string_eq, eq_iff, contains, if◌then◌else◌, Bool-cases, inl, inr,
}
use gpt_trace_extractor_for.Exceptions.{ok, raised, conversation_error}
use gpt_trace_extractor_for.Json.{
  Value, Fields, null, bool, int, negative, float, text, array, object, get, is_text,
}
use gpt_trace_extractor_for.Conversation.{
  has_role, ends_turn_of_assistant, is_complete, user_messages, check_users,
  validate_conversation_identity, add_text, slug_of, assistant_model_slugs, app_of,
  invoked_app_names,
}

abbrev pub IsNoUser : Fields → Type 0
IsNoUser message = has_role "user" message ≡ false

-- `message` stands in the list, and every other message there is of no user
pub record IsOnlyUser (messages : List Fields) (message : Fields) : Type 0 where
  pub before : List Fields
  pub after : List Fields
  pub stands : messages ≡ before ++ message ∷ after
  pub none_before : All IsNoUser before
  pub none_after : All IsNoUser after

no_users : (messages : List Fields) → user_messages messages ≡ [] → All IsNoUser messages
unfolding user_messages
no_users [] h = tt
no_users (message ∷ messages) h = (ground arith, no_users messages (ground arith))

one_user :
    (messages : List Fields) (message : Fields)
    → user_messages messages ≡ message ∷ []
    → IsOnlyUser messages message
unfolding user_messages
one_user [] message h = grind arith
one_user (first ∷ messages) message h = elim (Bool-cases (has_role "user" first)) [
  | inl user ↦ record {
    before = [];
    after = messages;
    stands = ap (λ x. x ∷ messages) (ground arith);
    none_before = tt;
    none_after = no_users messages (ground arith);
  }
  | inr other ↦
      let rest = one_user messages message (ground arith) in
      record {
        before = first ∷ rest.before;
        after = rest.after;
        stands = ap (λ l. first ∷ l) rest.stands;
        none_before = (other, rest.none_before);
        none_after = rest.none_after;
      }
]

-- the test holds of some message
abbrev pub some_message : (Fields → Bool) → List Fields → Bool
some_message p [] = false
some_message p (message ∷ messages) = p message || some_message p messages

complete-some_message :
    (messages : List Fields) → is_complete messages ≡ some_message ends_turn_of_assistant messages
unfolding is_complete
complete-some_message [] = refl
complete-some_message (message ∷ messages) = ground (arith, complete-some_message messages)

module _ (strip : String → String) where
  abbrev IsChecked : List Fields → String → Fields → Type 0
  IsChecked messages id m =
      (user_messages messages ≡ m ∷ [])
      × ((is_text (get m "id") id ≡ true) × (is_complete messages ≡ true))

  parts :
      (messages : List Fields) (id : String) (us : List Fields)
      → user_messages messages ≡ us
      → (b : Bool)
      → (if b
          then raised (conversation_error "expected user_message_id is missing")
          else check_users us id messages)
        ≡ ok tt
      → (m : Fields) × IsChecked messages id m
  parts messages id us e true h = grind arith
  parts messages id [] e false h = grind arith
  parts messages id (m ∷ []) e false h = (m, (e, (ground arith, ground arith)))
  parts messages id (m ∷ n ∷ ms) e false h = grind arith

  validate-IsChecked :
      (messages : List Fields) (id : String)
      → validate_conversation_identity strip messages id ≡ ok tt
      → (m : Fields) × IsChecked messages id m
  unfolding validate_conversation_identity
  validate-IsChecked messages id h =
      parts messages id (user_messages messages) refl (strip id == "") h

  -- When the identity of a conversation is accepted, exactly one of its messages is of a user, its
  -- id is the one that was submitted, and some message of the assistant ends the turn.
  pub validated_conversation :
      (messages : List Fields) (id : String)
      → validate_conversation_identity strip messages id ≡ ok tt
      → (m : Fields) × (IsOnlyUser messages m
          × ((is_text (get m "id") id ≡ true)
              × (some_message ends_turn_of_assistant messages ≡ true)))
  validated_conversation messages id h =
      let (m, (one, (same, complete))) = validate-IsChecked messages id h in
      (m, (one_user messages m one, (same, sym (complete-some_message messages) ∙ complete)))

  contains-add_text :
      (v : Value) (set : List String) (j : String)
      → contains (add_text strip v set) j ≡ (contains (add_text strip v []) j || contains set j)
  contains-add_text null set j = refl
  contains-add_text (text t) set j = ground (arith, eq_iff (strip t) "", eq_iff (strip t) j)
  contains-add_text (bool b) set j = refl
  contains-add_text (int n) set j = refl
  contains-add_text (negative n) set j = refl
  contains-add_text (float l) set j = refl
  contains-add_text (array a) set j = refl
  contains-add_text (object o) set j = refl

  -- the name is the stripped text of the value, and not blank
  abbrev pub is_named : String → Value → Bool
  is_named name v = contains (add_text strip v []) name

  -- The model slugs of a conversation are exactly those that some message of the assistant names in
  -- its metadata, and the invoked apps exactly those that some message names.
  pub names_exact :
      (messages : List Fields) (name : String)
      → (contains (assistant_model_slugs strip messages) name
          ≡ some_message (λ m. is_named name (slug_of m)) messages)
        × (contains (invoked_app_names strip messages) name
            ≡ some_message (λ m. is_named name (app_of m)) messages)
  unfolding assistant_model_slugs invoked_app_names
  names_exact [] name = (refl, refl)
  names_exact (message ∷ messages) name =
      let (slugs, apps) = names_exact messages name in
      (
        contains-add_text (slug_of message) (assistant_model_slugs strip messages) name
            ∙ ap (λ b. is_named name (slug_of message) || b) slugs,
        contains-add_text (app_of message) (invoked_app_names strip messages) name
            ∙ ap (λ b. is_named name (app_of message) || b) apps,
      )

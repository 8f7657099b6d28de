-- ===== src/Engine/Request/Splitting.antt =====
-- Where `separate_current_request` cuts a payload.
use mathlib.Core.Path.{subst}
use low_context_inference.Base.{
  ℕ, zero, suc, ◌-◌, ◌≤◌, ◌<◌, ◌≡◌, ◌⊎◌, inl, inr, refl, sym, ap, ◌∙◌, true, false, Option, none,
  some, List, [], ◌∷◌, ◌++◌, ltb, length, take, drop, arith, ltb→ge, ltb→lt, take-append-drop,
  length-drop, Bool-cases, All,
}
use low_context_inference.Json.{Fields}
use low_context_inference.Engine.Request.{
  at, is_user, is_instruction, last_user_index, trim, split_at, separate_current_request,
}

drop-at : (xs : List Fields) (n : ℕ) → n < length xs → drop n xs ≡ at xs n ∷ drop (suc n) xs
unfolding at
drop-at [] n h = ground arith
drop-at (x ∷ xs) zero h = refl
drop-at (x ∷ xs) (suc n) h = drop-at xs n (omega arith)

drop_all : (xs : List Fields) (n : ℕ) → length xs ≤ n → drop n xs ≡ []
drop_all [] zero h = refl
drop_all [] (suc n) h = refl
drop_all (x ∷ xs) zero h = ground arith
drop_all (x ∷ xs) (suc n) h = drop_all xs n (omega arith)

-- the part from `m` on, cut in two at `n`
take-split :
    (xs : List Fields) (m n : ℕ) → m ≤ n → take m xs ++ drop m (take n xs) ++ drop n xs ≡ xs
take-split xs zero n h = take-append-drop n xs
take-split [] (suc m) zero h = refl
take-split [] (suc m) (suc n) h = refl
take-split (x ∷ xs) (suc m) zero h = ground arith
take-split (x ∷ xs) (suc m) (suc n) h = ap (λ ys. x ∷ ys) (take-split xs m n (omega arith))

-- `trailing` is what follows `stop`, and all of it are instructions.
record IsTrimmed (messages : List Fields) (last stop : ℕ) (trailing : List Fields) : Type 0 where
  after : last < stop
  within : stop ≤ length messages
  follows : trailing ≡ drop stop messages
  all_systems : All (λ m. is_instruction m ≡ true) trailing
  -- what stands before it is the user's message, or no instruction
  stops : (stop ≡ suc last) ⊎ (is_instruction (at messages (stop - 1)) ≡ false)

trim-IsTrimmed :
    (messages : List Fields) (last n : ℕ) (trailing : List Fields)
    → last < n
    → n ≤ length messages
    → trailing ≡ drop n messages
    → All (λ m. is_instruction m ≡ true) trailing
    → IsTrimmed messages last (trim messages last n trailing).0 (trim messages last n trailing).1
unfolding trim
trim-IsTrimmed messages last zero trailing h b f a = ground arith
trim-IsTrimmed messages last (suc n) trailing h b f a = elim (Bool-cases (ltb last n)) [
  | inr e ↦
      rw (e, trim)
        (record {
          after = h;
          within = b;
          follows = f;
          all_systems = a;
          stops = inl (ap suc (omega (arith, ltb→ge last n e)));
        })
  | inl e ↦ elim (Bool-cases (is_instruction (at messages n))) [
    | inl i ↦
        rw (e, i, trim)
          (trim-IsTrimmed messages last n (at messages n ∷ trailing) (ltb→lt _ _ e) (omega arith)
            (rw f (sym (drop-at messages n (omega arith)))) (i, a))
    | inr i ↦
        rw (e, i, trim)
          (record {
            after = h;
            within = b;
            follows = f;
            all_systems = a;
            stops = inr (subst (λ k. is_instruction (at messages k) ≡ false) (omega arith) i);
          })
  ]
]

-- The history and the request, cut at the last message of the user and before the instructions
-- that end the payload.
pub record HasRequest (messages history request : List Fields) : Type 0 where
  pub last : ℕ
  pub stop : ℕ
  pub after : last < stop
  pub within : stop ≤ length messages
  pub starts : is_user (at messages last) ≡ true
  pub is_last : (i : ℕ) → last < i → i < length messages → is_user (at messages i) ≡ false
  pub before : List Fields
  pub before_length : length before ≡ last
  pub trailing : List Fields
  pub whole : messages ≡ before ++ request ++ trailing
  pub kept : history ≡ before ++ trailing
  pub request_length : length request ≡ stop - last
  pub systems : All (λ m. is_instruction m ≡ true) trailing
  pub stops : (stop ≡ suc last) ⊎ (is_instruction (at messages (stop - 1)) ≡ false)

abbrev pub NoUser : List Fields → ℕ → Type 0
NoUser messages n = (i : ℕ) → i < n → is_user (at messages i) ≡ false

abbrev LastUser : List Fields → ℕ → Option ℕ → Type 0
LastUser messages n none = NoUser messages n
LastUser messages n (some k) =
    (k < n)
    × (is_user (at messages k) ≡ true)
    × ((i : ℕ) → k < i → i < n → is_user (at messages i) ≡ false)

earlier : (i n : ℕ) → i < suc n → (i < n) ⊎ (i ≡ n)
earlier i n h = ground arith

last_user_index_lem :
    (messages : List Fields) (n : ℕ) → LastUser messages n (last_user_index messages n)
unfolding last_user_index
last_user_index_lem messages zero = λ i h. ground arith
last_user_index_lem messages (suc n) = elim (Bool-cases (is_user (at messages n))) [
  | inl e ↦ rw (e, last_user_index) (omega arith, e, λ i h k. ground arith)
  | inr e ↦
      rw (e, last_user_index)
        (widen (last_user_index messages n) e (last_user_index_lem messages n))
]
  where
    widen :
        (o : Option ℕ)
        → is_user (at messages n) ≡ false
        → LastUser messages n o
        → LastUser messages (suc n) o
    widen none e h = λ i k. elim (earlier i n k) [
      | inl l ↦ h i l
      | inr l ↦ subst (λ j. is_user (at messages j) ≡ false) (sym l) e
    ]
    widen (some k) e (a, b, c) = (
      omega arith,
      b,
      λ i l r. elim (earlier i n r) [
        | inl q ↦ c i l q
        | inr q ↦ subst (λ j. is_user (at messages j) ≡ false) (sym q) e
      ],
    )

length-take : (n : ℕ) (xs : List Fields) → n ≤ length xs → length (take n xs) ≡ n
length-take zero xs h = refl
length-take (suc n) [] h = ground arith
length-take (suc n) (x ∷ xs) h = ap suc (length-take n xs (omega arith))

abbrev pub Separated : List Fields → List Fields × List Fields → Type 0
Separated messages (history, request) =
    (NoUser messages (length messages) × (history ≡ messages) × (request ≡ []))
    ⊎ HasRequest messages history request

-- Without a message of the user all is history. Otherwise the request runs from the last message of
-- the user up to the instructions that end the payload; these and what stood before the request are
-- the history, in order, and nothing else is moved or lost.
pub separate_current_request_lem :
    (messages : List Fields) → Separated messages (separate_current_request messages)
unfolding separate_current_request
separate_current_request_lem messages =
    cut (last_user_index messages (length messages))
      (last_user_index_lem messages (length messages))
  where
    cut :
        (o : Option ℕ)
        → LastUser messages (length messages) o
        → Separated messages (split_at messages o)
    cut none h = inl (h, refl, refl)
    cut (some last) (a, b, c) =
        let t =
          trim-IsTrimmed messages last (length messages) [] a (omega arith)
            (sym (drop_all messages (length messages) (omega arith))) tt in
        let stop = (trim messages last (length messages) []).0 in
        let trailing = (trim messages last (length messages) []).1 in
        inr (record {
          last = last;
          stop = stop;
          after = t.after;
          within = t.within;
          starts = b;
          is_last = c;
          before = take last messages;
          before_length = length-take last messages (omega (arith, a));
          trailing = trailing;
          whole = rw t.follows (sym (take-split messages last stop (omega (arith, t.after))));
          kept = refl;
          request_length =
              length-drop last (take stop messages)
              ∙ ap (λ n. n - last) (length-take stop messages t.within);
          systems = t.all_systems;
          stops = t.stops;
        })

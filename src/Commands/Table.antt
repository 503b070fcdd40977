-- ===== src/Commands/Table.antt =====
-- The table of the commands against the list of their names.
use secoli_sced.Base.{
  Bytes, codes, ℕ, zero, suc, ◌+◌, ◌≡◌, refl, ap, ◌∙◌, ◌↔◌, inl, inr, Bool, Bool-cases, true, false,
  List, [], ◌∷◌, some, arith, get_elem?, str_eq, str_eq_iff, Option-cases,
}
use secoli_sced.Commands.{
  Command, alter, announce, authenticate, create, deauthenticate, destroy, dump, echo, find, fetch,
  get, hello, list, negotiate, quit, set, show, shutdown, who, within, CommandHandler, commands,
  handler_index_from, find_command_handler, command_is_embeddable, commands_get_handler, entry_at,
}

-- The names, written down once more beside the table.
abbrev pub keyword_of : Command → Bytes
keyword_of alter = codes "ALTER"
keyword_of announce = codes "ANNOUNCE"
keyword_of authenticate = codes "AUTHENTICATE"
keyword_of create = codes "CREATE"
keyword_of deauthenticate = codes "DEAUTHENTICATE"
keyword_of destroy = codes "DESTROY"
keyword_of dump = codes "DUMP"
keyword_of echo = codes "ECHO"
keyword_of find = codes "FIND"
keyword_of fetch = codes "FETCH"
keyword_of get = codes "GET"
keyword_of hello = codes "HELLO"
keyword_of list = codes "LIST"
keyword_of negotiate = codes "NEGOTIATE"
keyword_of quit = codes "QUIT"
keyword_of set = codes "SET"
keyword_of show = codes "SHOW"
keyword_of shutdown = codes "SHUTDOWN"
keyword_of who = codes "WHO"
keyword_of within = codes "WITHIN"

-- The commands that WITHIN takes: none of them changes who the client is.
abbrev pub is_embedded : Command → Bool
is_embedded dump = true
is_embedded echo = true
is_embedded find = true
is_embedded fetch = true
is_embedded get = true
is_embedded hello = true
is_embedded set = true
is_embedded show = true
is_embedded shutdown = true
is_embedded who = true
is_embedded _ = false

abbrev IsListed : CommandHandler → Type 0
IsListed h = (h.keyword ≡ keyword_of h.function) × (h.is_embeddable ≡ is_embedded h.function)

abbrev All : {A : Type 0} → (A → Type 0) → List A → Type 0
All P [] = Unit
All P (x ∷ xs) = P x × All P xs

get_elem?-All :
    {A : Type 0} (P : A → Type 0) (xs : List A) (i : ℕ) (x : A)
    → All P xs
    → get_elem? xs i ≡ some x
    → P x
get_elem?-All P [] i x h e = cc e
get_elem?-All P (y ∷ xs) zero x h e = let p : y ≡ x = cc e in rw p at h.0
get_elem?-All P (y ∷ xs) (suc i) x h e = get_elem?-All P xs i x h.1 e

commands-IsListed : All IsListed commands
unfolding commands
commands-IsListed = (
  (refl, refl),
  (
    (refl, refl),
    (
      (refl, refl),
      (
        (refl, refl),
        (
          (refl, refl),
          (
            (refl, refl),
            (
              (refl, refl),
              (
                (refl, refl),
                (
                  (refl, refl),
                  (
                    (refl, refl),
                    (
                      (refl, refl),
                      (
                        (refl, refl),
                        (
                          (refl, refl),
                          (
                            (refl, refl),
                            (
                              (refl, refl),
                              (
                                (refl, refl),
                                ((refl, refl), ((refl, refl), ((refl, refl), ((refl, refl), tt)))),
                              ),
                            ),
                          ),
                        ),
                      ),
                    ),
                  ),
                ),
              ),
            ),
          ),
        ),
      ),
    ),
  ),
)

index_from-found :
    (cmd : Bytes) (hs : List CommandHandler) (i j : ℕ)
    → handler_index_from cmd i hs ≡ some j
    → (k : ℕ) × (h : CommandHandler) × (j ≡ i + k) × (get_elem? hs k ≡ some h) × (cmd ≡ h.keyword)
unfolding handler_index_from
index_from-found cmd [] i j e = cc e
index_from-found cmd (h ∷ hs) i j e = elim (Bool-cases (str_eq cmd h.keyword)) [
  | inl same ↦ (0, h, ground (arith, same), refl, (str_eq_iff cmd h.keyword).0 same)
  | inr other ↦
      let (k, h', p, q, r) = index_from-found cmd hs (suc i) j (rw other at e) in
      (suc k, h', omega (arith, p), q, r)
]

found_at :
    (cmd : Bytes) (hs : List CommandHandler) (j : ℕ)
    → handler_index_from cmd 0 hs ≡ some j
    → (h : CommandHandler) × (get_elem? hs j ≡ some h) × (cmd ≡ h.keyword)
found_at cmd hs j e =
    let (k, h, p, q, r) = index_from-found cmd hs 0 j e in
    let same : j ≡ k = omega (arith, p) in (h, rw same q, r)

handler-found :
    (cmd : Bytes) (f : Command)
    → commands_get_handler (some cmd) ≡ some f
    → (h : CommandHandler) × (entry_at (find_command_handler (some cmd)) ≡ some h)
      × (h.function ≡ f)
      × (cmd ≡ h.keyword)
      × IsListed h
unfolding commands_get_handler find_command_handler
handler-found cmd f e = elim (Option-cases (handler_index_from cmd 0 commands)) [
  | inl n ↦ cc (rw (n, commands_get_handler) at e)
  | inr (j, m) ↦
      let (h, at_j, r) = found_at cmd commands j m in
      (
        h,
        rw m at_j,
        cc (rw (m, commands_get_handler, at_j) at e),
        r,
        get_elem?-All IsListed commands j h commands-IsListed at_j,
      )
]

-- The entry of each keyword.
keyword_of-found : (f : Command) → commands_get_handler (some (keyword_of f)) ≡ some f
unfolding commands_get_handler str_eq
keyword_of-found alter = refl
keyword_of-found announce = refl
keyword_of-found authenticate = refl
keyword_of-found create = refl
keyword_of-found deauthenticate = refl
keyword_of-found destroy = refl
keyword_of-found dump = refl
keyword_of-found echo = refl
keyword_of-found find = refl
keyword_of-found fetch = refl
keyword_of-found get = refl
keyword_of-found hello = refl
keyword_of-found list = refl
keyword_of-found negotiate = refl
keyword_of-found quit = refl
keyword_of-found set = refl
keyword_of-found show = refl
keyword_of-found shutdown = refl
keyword_of-found who = refl
keyword_of-found within = refl

-- A command is found by its own keyword and no other, and WITHIN takes those that are listed.
pub commands_get_handler-keyword_of :
    (cmd : Bytes) (f : Command)
    → ((commands_get_handler (some cmd) ≡ some f) ↔ (cmd ≡ keyword_of f))
      × (commands_get_handler (some cmd) ≡ some f
          → command_is_embeddable (some cmd) ≡ is_embedded f)
unfolding command_is_embeddable
commands_get_handler-keyword_of cmd f = (
  (
    (λ e. let (h, at, g, k, (l, m)) = handler-found cmd f e in cc (k, l, ap keyword_of g)),
    λ e. rw e (keyword_of-found f),
  ),
  λ e.
      let (h, at, g, k, (l, m)) = handler-found cmd f e in
      rw (at, command_is_embeddable) (m ∙ ap is_embedded g),
)

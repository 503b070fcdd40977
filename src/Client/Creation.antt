-- ===== src/Client/Creation.antt =====
-- `client_create` of src/client.c.
use secoli_sced.Base.{
  Bytes, codes, ℕ, Bool, true, false, not, ◌≡◌, refl, List, [], ◌∷◌, Option, none, some,
  if◌then◌else◌, ℤ, pos, minus_one, ◌+ℤ◌, str_eq, arith, is_neg,
}
use secoli_sced.Client.Timeouts.{check_all}
use secoli_sced.Client.{Client, ClientPointer, client_check_timeout, client_get_destroy}
use secoli_sced.Clib.{int_of}
use secoli_sced.Encoder.{
  Iconv, encoder_create, encoder_default_charset, encoder_direction_input, encoder_direction_output,
}
use secoli_sced.Output.{output_create_handler}
use secoli_sced.Queue.Holds.{Holds, holds}
use secoli_sced.Queue.{Queue, queue_create}
use secoli_sced.Search.{Glib}
use secoli_sced.Session.List.{Pointed}
use secoli_sced.Session.{Session, session_create, session_generate_id}

-- Where a part of a client cannot be created, client_destroy goes through the other fields of a
-- struct that is not set, which is a fault.
abbrev pub with_part : {A B : Type 0} → Option A → (A → Option B) → Option B
with_part none f = none
with_part (some a) f = f a

-- What malloc finds for the client, its two queues, its encoders and its handler.
pub record ClientMemory : Type 0 where
  pub struct_memory : Bool
  pub messages_memory : Bool
  pub sessions_memory : Bool
  pub input_memory : Bool
  pub output_memory : Bool
  pub handler_memory : Bool

abbrev pub all_memory : ClientMemory
all_memory = record {
  struct_memory = true;
  messages_memory = true;
  sessions_memory = true;
  input_memory = true;
  output_memory = true;
  handler_memory = true;
}

module _ (G : Glib) (I : Iconv) where
  -- The default session is made in `session`, and the counter of sessions comes behind the client.
  unfoldable pub client_create :
      ClientMemory → Option (Session G) → ℤ → ℕ → Option (ClientPointer G × ℕ)
  client_create m session sock session_counter =
      if not m.struct_memory
      then some (none, session_counter)
      else with_part (queue_create (G Bytes) m.messages_memory) λ messages.
        with_part (queue_create (G (Pointed G)) m.sessions_memory) λ sessions.
          let (default, counter) = session_create G session session_counter in
          with_part default λ default_session.
            with_part
              (encoder_create I m.input_memory encoder_default_charset encoder_direction_input)
              λ input_enc.
                with_part
                  (encoder_create I m.output_memory encoder_default_charset
                    encoder_direction_output)
                  λ output_enc.
                    with_part (output_create_handler m.handler_memory (some (codes "FLAT")))
                      λ handler. some (
                        some (record {
                          sock = sock;
                          destroy = false;
                          messages = some messages;
                          sessions = some sessions;
                          default_session = some default_session;
                          output_enc = some output_enc;
                          output_handler = some handler;
                          field_delimiter = some (codes ";");
                          timeout = pos 0;
                          elapsed_time = pos 0;
                          user_of = none;
                        }),
                        counter,
                      )

  -- A client that nothing waits for, that nobody has logged in on, and that no time destroys.
  pub record IsFresh (sock : ℤ) (c : Client G) : Type 0 where
    pub on_socket : c.sock ≡ sock
    pub no_message : Holds (G Bytes) [] minus_one c.messages
    pub no_session : Holds (G (Pointed G)) [] minus_one c.sessions
    pub nobody : c.user_of ≡ none
    pub never_over : (ts : List ℕ) → client_get_destroy G (check_all G (some c) ts) ≡ false

  pub data Created (sock : ℤ) : Option (ClientPointer G × ℕ) → Type 0 where
    is_fault : Created sock none
    is_null : {n : ℕ} → Created sock (some (none, n))
    is_client : {c : Client G} {n : ℕ} → IsFresh sock c → Created sock (some (some c, n))

  check_timeout-unset :
      (c : Client G) (t : ℕ)
      → c.timeout ≡ pos 0
      → (client_check_timeout G (some c) (pos t)).1
        ≡ some (record c { elapsed_time = c.elapsed_time +ℤ int_of (pos t) })
  unfolding client_check_timeout
  check_timeout-unset c t e = rw e refl

  lasting :
      (c : Client G) (ts : List ℕ)
      → c.timeout ≡ pos 0
      → c.destroy ≡ false
      → client_get_destroy G (check_all G (some c) ts) ≡ false
  unfolding client_get_destroy check_all
  lasting c [] e f = f
  lasting c (t ∷ ts) e f =
      rw (check_timeout-unset c t e, check_all)
        (lasting (record c { elapsed_time = c.elapsed_time +ℤ int_of (pos t) }) ts e f)

  new-Holds : {A : Type 0} → Holds (G A) [] minus_one (queue_create (G A) true)
  unfolding queue_create
  new-Holds {A} = holds (G A).contents-new refl (omega arith) (omega arith)

  part-Created :
      {A : Type 0} (sock : ℤ) (o : Option A) (f : A → Option (ClientPointer G × ℕ))
      → ((a : A) → Created sock (f a))
      → Created sock (with_part o f)
  part-Created sock none f h = is_fault
  part-Created sock (some a) f h = h a

  queue-Created :
      {A : Type 0} (sock : ℤ) (memory : Bool) (f : Queue (G A) → Option (ClientPointer G × ℕ))
      → ((q : Queue (G A)) → Holds (G A) [] minus_one (some q) → Created sock (f q))
      → Created sock (with_part (queue_create (G A) memory) f)
  unfolding queue_create
  queue-Created sock false f h = is_fault
  queue-Created {A} sock true f h = h (record { queue = (G A).new; position = minus_one }) new-Holds

  -- A client that client_create returns has the given socket, queues of messages and sessions that
  -- are empty, and no user, and calls of client_check_timeout never have it destroyed, however long
  -- they say that it has waited.
  pub client_create-Created :
      (m : ClientMemory) (session : Option (Session G)) (sock : ℤ) (session_counter : ℕ)
      → Created sock (client_create m session sock session_counter)
  unfolding client_create
  client_create-Created m session sock session_counter = go m.struct_memory refl
    where
      go :
          (b : Bool)
          → m.struct_memory ≡ b
          → Created sock (client_create m session sock session_counter)
      go false e = rw (e, client_create) is_null
      go true e =
          rw (e, client_create)
            (queue-Created sock m.messages_memory _ λ messages h.
              queue-Created sock m.sessions_memory _ λ sessions k.
                part-Created sock (session_create G session session_counter).0 _ λ default_session.
                  part-Created sock
                    (encoder_create I m.input_memory encoder_default_charset
                      encoder_direction_input)
                    _
                    λ input_enc.
                      part-Created sock
                        (encoder_create I m.output_memory encoder_default_charset
                          encoder_direction_output)
                        _
                        λ output_enc.
                          part-Created sock
                            (output_create_handler m.handler_memory (some (codes "FLAT"))) _
                            λ handler. is_client (record {
                              on_socket = refl;
                              no_message = h;
                              no_session = k;
                              nobody = refl;
                              never_over = λ ts. lasting _ ts refl refl;
                            }))

  is_client_result : Option (ClientPointer G × ℕ) → Bool
  is_client_result none = false
  is_client_result (some (none, n)) = false
  is_client_result (some (some c, n)) = true

  found :
      {sock : ℤ} (r : Option (ClientPointer G × ℕ))
      → Created sock r
      → is_client_result r ≡ true
      → (c : Client G) × (n : ℕ) × (r ≡ some (some c, n)) × IsFresh sock c
  unfolding is_client_result
  found none k e = cc e
  found (some (none, n)) k e = cc e
  found (some (some c, n)) (is_client h) e = (c, n, refl, h)

  created :
      (session : Session G) (sock : ℤ) (session_counter : ℕ)
      → is_neg (I.iconv_open encoder_default_charset encoder_default_charset) ≡ false
      → is_client_result (client_create all_memory (some session) sock session_counter) ≡ true
  unfolding is_client_result str_eq client_create queue_create session_create session_generate_id
      encoder_create output_create_handler
  created session sock session_counter e = rw e refl

  -- Where memory is found for all and iconv converts the default character set to itself,
  -- client_create does return a client, and it is such a one.
  pub client_create-IsFresh :
      (session : Session G) (sock : ℤ) (session_counter : ℕ)
      → is_neg (I.iconv_open encoder_default_charset encoder_default_charset) ≡ false
      → (c : Client G) × (n : ℕ) × (client_create all_memory (some session) sock session_counter
          ≡ some (some c, n))
        × IsFresh sock c
  client_create-IsFresh session sock session_counter e =
      found (client_create all_memory (some session) sock session_counter)
        (client_create-Created all_memory (some session) sock session_counter)
        (created session sock session_counter e)

-- ===== src/Console/Login.antt =====
-- pkg/internal/checkup/executor/console/login.go: the login on a guest's console.
use kubevirt_dpdk_checkup.Base.{
  ℕ, ◌≡◌, refl, sym, ap, ◌∙◌, ◌⊎◌, inl, inr, Option, none, some, List, [], ◌∷◌, ◌++◌, Bytes, codes,
}
use kubevirt_dpdk_checkup.Go.Error.{Error}
use kubevirt_dpdk_checkup.World.{
  Env, Call, History, Batcher, send, expect, switch_case, Case, next, log_continue, finish,
}
use kubevirt_dpdk_checkup.Checkup.Frame.{undeleted}
use kubevirt_dpdk_checkup.Console.{Expecter, prompt_expression, ret_value}

abbrev logged_in_prompt : Bytes → Bytes
logged_in_prompt name = codes "(\\[root@(localhost|centos|" ++ (name ++ codes ") ~\\]\\# )")

abbrev pub logged_in_batch : Bytes → List Batcher
logged_in_batch name = send (codes "\n") ∷ expect (logged_in_prompt name) ∷ []

abbrev login_cases : Bytes → Bytes → List Case
login_cases name password =
    record {
      expression = codes "(localhost|centos|" ++ (name ++ codes ") login: ");
      sends = codes "root\n";
      tag = next;
      retries = 10;
    }
    ∷ record {
      expression = codes "Password:";
      sends = password ++ codes "\n";
      tag = next;
      retries = 10;
    }
    ∷ record {
      expression = codes "Login incorrect";
      sends = [];
      tag = log_continue (codes "Failed to log in") (codes "login failed");
      retries = 10;
    }
    ∷ record { expression = logged_in_prompt name; sends = []; tag = finish; retries = 0 }
    ∷ []

abbrev login_batch : Bytes → Bytes → List Batcher
login_batch name password =
    send (codes "\n") ∷ send (codes "\n") ∷ switch_case (login_cases name password) ∷ []

abbrev configure_batch : List Batcher
configure_batch =
    send (codes "stty cols 160 rows 50\n")
    ∷ expect prompt_expression
    ∷ send (codes "echo $?\n")
    ∷ expect (ret_value (codes "0"))
    ∷ send (codes "dmesg -n 1\n")
    ∷ expect prompt_expression
    ∷ send (codes "echo $?\n")
    ∷ expect (ret_value (codes "0"))
    ∷ []

-- The calls that open a console.
abbrev pub opened : Expecter → History → History
opened e h = Call.spawn e.vmi_name ∷ Call.serial_console e.vmi_namespace e.vmi_name 10 ∷ h

module _ (env : Env) where
  abbrev pub attempt : Bytes → List Batcher → ℕ → History → Option Error × History
  attempt name batch timeout h =
      ((env.expect_batch h name batch timeout).1, Call.expect_batch name batch timeout ∷ h)

  -- `configureConsole`.
  unfoldable configure_console : Bytes → History → Option Error × History
  unfolding ret_value
  configure_console name h = attempt name configure_batch 30 h

  abbrev after_retry : Bytes → Option Error × History → Option Error × History
  after_retry name (some e, h) = (some e, h)
  after_retry name (none, h) = configure_console name h

  abbrev after_login : Bytes → Bytes → Option Error × History → Option Error × History
  after_login name password (none, h) = configure_console name h
  after_login name password (some e, h) =
      after_retry name (attempt name (login_batch name password) 60 h)

  abbrev after_prompt : Bytes → Bytes → Option Error × History → Option Error × History
  after_prompt name password (none, h) = (none, h)
  after_prompt name password (some e, h) =
      after_login name password (attempt name (login_batch name password) 120 h)

  abbrev after_send : Bytes → Bytes → Option Error → History → Option Error × History
  after_send name password (some e) h = (some e, h)
  after_send name password none h =
      after_prompt name password (attempt name (logged_in_batch name) 5 h)

  -- The steps of the login on an open console.
  unfoldable log_in : Bytes → Bytes → History → Option Error × History
  unfolding configure_console
  log_in name password h =
      after_send name password (env.send_text h name (codes "\n"))
        (Call.send_text name (codes "\n") ∷ h)

  abbrev after_spawn : Bytes → Bytes → Option Error → History → Option Error × History
  after_spawn name password (some e) h = (some e, h)
  after_spawn name password none h =
      let (r, h') = log_in name password h in (r, Call.close name ∷ h')

  abbrev after_connection : Bytes → Bytes → Option Error → History → Option Error × History
  after_connection name password (some e) h = (some e, h)
  after_connection name password none h =
      after_spawn name password (env.spawn h name) (Call.spawn name ∷ h)

  -- `LoginToCentOSAsRoot`.
  unfoldable pub login_to_centos_as_root : Expecter → Bytes → History → Option Error × History
  unfolding log_in
  login_to_centos_as_root e password h =
      after_connection e.vmi_name password (env.serial_console h e.vmi_namespace e.vmi_name 10)
        (Call.serial_console e.vmi_namespace e.vmi_name 10 ∷ h)

  after_retry-undeleted :
      (name : Bytes) (p : Option Error × History) → undeleted (after_retry name p).1 ≡ undeleted p.1
  unfolding configure_console undeleted
  after_retry-undeleted name (some e, h) = refl
  after_retry-undeleted name (none, h) = refl

  after_login-undeleted :
      (name password : Bytes) (p : Option Error × History)
      → undeleted (after_login name password p).1 ≡ undeleted p.1
  unfolding configure_console undeleted
  after_login-undeleted name password (none, h) = refl
  after_login-undeleted name password (some e, h) =
      after_retry-undeleted name (attempt name (login_batch name password) 60 h)

  after_prompt-undeleted :
      (name password : Bytes) (p : Option Error × History)
      → undeleted (after_prompt name password p).1 ≡ undeleted p.1
  unfolding undeleted
  after_prompt-undeleted name password (none, h) = refl
  after_prompt-undeleted name password (some e, h) =
      after_login-undeleted name password (attempt name (login_batch name password) 120 h)

  after_send-undeleted :
      (name password : Bytes) (o : Option Error) (h : History)
      → undeleted (after_send name password o h).1 ≡ undeleted h
  unfolding undeleted
  after_send-undeleted name password (some e) h = refl
  after_send-undeleted name password none h =
      after_prompt-undeleted name password (attempt name (logged_in_batch name) 5 h)

  after_spawn-undeleted :
      (name password : Bytes) (o : Option Error) (h : History)
      → undeleted (after_spawn name password o h).1 ≡ undeleted h
  unfolding log_in undeleted
  after_spawn-undeleted name password (some e) h = refl
  after_spawn-undeleted name password none h =
      after_send-undeleted name password (env.send_text h name (codes "\n")) _

  after_connection-undeleted :
      (name password : Bytes) (o : Option Error) (h : History)
      → undeleted (after_connection name password o h).1 ≡ undeleted h
  unfolding undeleted
  after_connection-undeleted name password (some e) h = refl
  after_connection-undeleted name password none h =
      after_spawn-undeleted name password (env.spawn h name) _

  pub login_to_centos_as_root-undeleted :
      (e : Expecter) (password : Bytes) (h : History)
      → undeleted (login_to_centos_as_root e password h).1 ≡ undeleted h
  unfolding login_to_centos_as_root undeleted
  login_to_centos_as_root-undeleted e password h =
      after_connection-undeleted e.vmi_name password
        (env.serial_console h e.vmi_namespace e.vmi_name 10) _

  -- The console is open, and what a login on it does.
  login_to_centos_as_root-log_in :
      (e : Expecter) (password : Bytes) (h : History)
      → env.serial_console h e.vmi_namespace e.vmi_name 10 ≡ none
      → env.spawn (Call.serial_console e.vmi_namespace e.vmi_name 10 ∷ h) e.vmi_name ≡ none
      → login_to_centos_as_root e password h ≡ (
        (log_in e.vmi_name password (opened e h)).0,
        Call.close e.vmi_name ∷ (log_in e.vmi_name password (opened e h)).1,
      )
  unfolding login_to_centos_as_root
  login_to_centos_as_root-log_in e password h opens runs = rw (opens, runs)

  -- The last batch configured the console, and succeeded.
  pub record Configured (name : Bytes) (k : History) : Type 0 where
    pub before : History
    pub last : k ≡ Call.expect_batch name configure_batch 30 ∷ before
    pub succeeds : (env.expect_batch before name configure_batch 30).1 ≡ none

  configure_console-none :
      (name : Bytes) (h : History)
      → (configure_console name h).0 ≡ none
      → Configured name (configure_console name h).1
  unfolding configure_console
  configure_console-none name h q = record { before = h; last = refl; succeeds = q }

  after_retry-none :
      (name : Bytes) (p : Option Error × History)
      → (after_retry name p).0 ≡ none
      → Configured name (after_retry name p).1
  after_retry-none name (some e, h) q = cc
  after_retry-none name (none, h) q = configure_console-none name h q

  after_login-none :
      (name password : Bytes) (p : Option Error × History)
      → (after_login name password p).0 ≡ none
      → Configured name (after_login name password p).1
  after_login-none name password (none, h) q = configure_console-none name h q
  after_login-none name password (some e, h) q =
      after_retry-none name (attempt name (login_batch name password) 60 h) q

  after_prompt-none :
      (name password : Bytes) (p : Option Error × History)
      → (after_prompt name password p).0 ≡ none
      → (p.0 ≡ none) ⊎ Configured name (after_prompt name password p).1
  after_prompt-none name password (none, h) q = inl refl
  after_prompt-none name password (some e, h) q =
      inr (after_login-none name password (attempt name (login_batch name password) 120 h) q)

  after_send-none :
      (name password : Bytes) (o : Option Error) (h : History)
      → (after_send name password o h).0 ≡ none
      → ((env.expect_batch h name (logged_in_batch name) 5).1 ≡ none)
        ⊎ Configured name (after_send name password o h).1
  after_send-none name password (some e) h q = cc
  after_send-none name password none h q =
      after_prompt-none name password (attempt name (logged_in_batch name) 5 h) q

  -- On a console that opens, a login closes it again in each case. If it returns no error, the
  -- prompt of root was there at once, or the last batch before the close configured the console
  -- and succeeded.
  pub login_to_centos_as_root-Configured :
      (e : Expecter) (password : Bytes) (h : History)
      → env.serial_console h e.vmi_namespace e.vmi_name 10 ≡ none
      → env.spawn (Call.serial_console e.vmi_namespace e.vmi_name 10 ∷ h) e.vmi_name ≡ none
      → (k : History) × ((login_to_centos_as_root e password h).1 ≡ Call.close e.vmi_name ∷ k)
        × ((login_to_centos_as_root e password h).0 ≡ none
            → ((env.expect_batch
                  (Call.send_text e.vmi_name (codes "\n") ∷ opened e h)
                  e.vmi_name
                  (logged_in_batch e.vmi_name)
                  5).1
                ≡ none)
              ⊎ Configured e.vmi_name k)
  unfolding log_in
  login_to_centos_as_root-Configured e password h opens runs =
      let shape = login_to_centos_as_root-log_in e password h opens runs in
      (
        (log_in e.vmi_name password (opened e h)).1,
        ap (λ (p : Option Error × History). p.1) shape,
        λ q.
            after_send-none e.vmi_name password (env.send_text (opened e h) e.vmi_name (codes "\n"))
              _ (sym (ap (λ (p : Option Error × History). p.0) shape) ∙ q),
      )

-- ===== src/Client/Interactive/Ends.antt =====
-- The interactive command returns on every input.
use admin_api.Base.{
  ℕ, zero, suc, ◌≤◌, ◌<◌, String, List, [], ◌∷◌, Option, some, none, ◌≡◌, ◌≢◌, refl, ap, ◌∙◌, arith,
  length, str_eq, eq_iff, if_cases,
}
use admin_api.Service.Types.{CreateProjectRequest}
use admin_api.Client.{Outside, DefaultClient}
use admin_api.Client.Text.{trim_space, trim_right, fields, fields-trim_left}
use admin_api.Client.Interactive.{
  InputEnd, at_end, scan_error, Exit, panicked, Turn, stop, go, read_groups, read_owners, read_kind,
  read_description, read_project, create_turn, projects_turn, command_turn, turn, over, interactive,
  is_exit, is_help,
}

-- A round never panics and leaves no more lines than it found.
abbrev Fine : ℕ → Turn → Type 0
Fine n (stop exit) = exit ≢ panicked
Fine n (go lines c) = length lines ≤ n

record IsFine (n : ℕ) (t : Turn) : Type 0 where
  fine : Fine n t

read_project-length : (lines : List String) → length (read_project lines).1 ≤ length lines
unfolding read_project read_description read_kind read_owners read_groups
read_project-length [] = omega arith
read_project-length (a ∷ []) = ground arith
read_project-length (a ∷ b ∷ []) = ground arith
read_project-length (a ∷ b ∷ d ∷ []) = ground arith
read_project-length (a ∷ b ∷ d ∷ e ∷ []) = ground arith
read_project-length (a ∷ b ∷ d ∷ e ∷ f ∷ lines) = ground arith

stays : (lines : List String) (c : DefaultClient) → IsFine (length lines) (go lines c)
stays lines c = record { fine = omega arith }

fields-trim_space : (line : String) → trim_space line ≢ "" → fields (trim_space line) ≢ []
unfolding trim_space
fields-trim_space line h = fields-trim_left (trim_right line) h

module _ (o : Outside) where
  create_turn-IsFine :
      (n : ℕ) (p : Option CreateProjectRequest × List String) (c : DefaultClient)
      → length p.1 ≤ n
      → IsFine n (create_turn o p c)
  unfolding create_turn
  create_turn-IsFine n (some req, lines) c h = record { fine = h }
  create_turn-IsFine n (none, lines) c h = record { fine = h }

  projects_turn-IsFine :
      (args lines : List String) (c : DefaultClient)
      → IsFine (length lines) (projects_turn o args lines c)
  unfolding projects_turn
  projects_turn-IsFine [] lines c = record { fine = omega arith }
  projects_turn-IsFine (subcommand ∷ args) lines c =
      if_cases (IsFine (length lines)) (str_eq subcommand "list")
        (λ _. record { fine = omega arith })
        λ _.
          if_cases (IsFine (length lines)) (str_eq subcommand "create")
            (λ _. create_turn-IsFine _ (read_project lines) c (read_project-length lines))
            λ _. record { fine = omega arith }

  command_turn-IsFine :
      (parts lines : List String) (c : DefaultClient)
      → parts ≢ []
      → IsFine (length lines) (command_turn o parts lines c)
  unfolding command_turn
  command_turn-IsFine [] lines c h = absurd (h refl)
  command_turn-IsFine (command ∷ args) lines c h =
      let P = IsFine (length lines) in
      if_cases P (is_exit command) (λ _. record { fine = λ e. cc })
        λ _.
          if_cases P (is_help command) (λ _. stays lines _)
            λ _.
              if_cases P (str_eq command "ping") (λ _. stays lines _)
                λ _.
                  if_cases P (str_eq command "login") (λ _. stays lines _)
                    λ _.
                      if_cases P (str_eq command "logout") (λ _. stays lines _)
                        λ _.
                          if_cases P (str_eq command "projects")
                            (λ _. projects_turn-IsFine args lines c) λ _. stays lines _

  turn-IsFine :
      (line : String) (lines : List String) (c : DefaultClient)
      → IsFine (length lines) (turn o line lines c)
  unfolding turn
  turn-IsFine line lines c =
      if_cases (IsFine (length lines)) (str_eq (trim_space line) "")
        (λ _. record { fine = omega arith })
        λ full.
          command_turn-IsFine (fields (trim_space line)) lines c
            (fields-trim_space line (λ e. cc ((eq_iff (trim_space line) "").1 e)))

  -- The command returns, in the same way for all fuel above the number of lines, and not by a panic.
  pub record Returns (end : InputEnd) (lines : List String) (c : DefaultClient) : Type 0 where
    pub exit : Exit
    pub left : DefaultClient
    pub no_panic : exit ≢ panicked
    pub result : (n : ℕ) → length lines < n → interactive o n end lines c ≡ some (exit, left)

  over-ne-panicked : (end : InputEnd) → over end ≢ panicked
  over-ne-panicked at_end e = cc
  over-ne-panicked scan_error e = cc

  module _ (end : InputEnd) where
    no_lines : (c : DefaultClient) → Returns end [] c
    unfolding interactive
    no_lines c = record {
      exit = over end;
      left = c;
      no_panic = over-ne-panicked end;
      result = result;
    }
      where
        result : (n : ℕ) → 0 < n → interactive o n end [] c ≡ some (over end, c)
        result zero h = absurd (omega arith)
        result (suc n) h = refl

    abbrev resume : ℕ → DefaultClient → Turn → Option (Exit × DefaultClient)
    resume n c (stop exit) = some (exit, c)
    resume n c (go rest c') = interactive o n end rest c'

    interactive_step :
        (n : ℕ) (line : String) (lines : List String) (c : DefaultClient) {t : Turn}
        → turn o line lines c ≡ t
        → interactive o (suc n) end (line ∷ lines) c ≡ resume n c t
    unfolding interactive
    interactive_step n line lines c e = ap (resume n c) e

    after_turn :
        (k : ℕ) (line : String) (lines : List String) (c : DefaultClient) (t : Turn)
        → turn o line lines c ≡ t
        → Fine (length lines) t
        → length lines ≤ k
        → ((rest : List String) (c' : DefaultClient) → length rest ≤ k → Returns end rest c')
        → Returns end (line ∷ lines) c
    after_turn k line lines c (stop exit) e fine bound again = record {
      exit = exit;
      left = c;
      no_panic = fine;
      result = result;
    }
      where
        result :
            (n : ℕ)
            → length (line ∷ lines) < n
            → interactive o n end (line ∷ lines) c ≡ some (exit, c)
        result zero h = absurd (omega arith)
        result (suc n) h = interactive_step n line lines c e
    after_turn k line lines c (go rest c') e fine bound again =
        let r = again rest c' (omega arith) in
        record { exit = r.exit; left = r.left; no_panic = r.no_panic; result = result r }
      where
        result :
            (r : Returns end rest c') (n : ℕ)
            → length (line ∷ lines) < n
            → interactive o n end (line ∷ lines) c ≡ some (r.exit, r.left)
        result r zero h = absurd (omega arith)
        result r (suc n) h = interactive_step n line lines c e ∙ r.result n (omega arith)

    ends_within :
        (k : ℕ) (lines : List String) (c : DefaultClient) → length lines ≤ k → Returns end lines c
    ends_within k [] c bound = no_lines c
    ends_within zero (line ∷ lines) c bound = absurd (omega arith)
    ends_within (suc k) (line ∷ lines) c bound =
        after_turn k line lines c _ refl (turn-IsFine line lines c).fine (omega arith)
          (ends_within k)

    -- On every finite input, however its lines read and however the commands fail, the interactive
    -- command returns after at most as many rounds as there are lines, and one; and never by a panic.
    pub interactive-Returns : (lines : List String) (c : DefaultClient) → Returns end lines c
    interactive-Returns lines c = ends_within (length lines) lines c (omega arith)

-- ===== src/Agent/Config/Total.antt =====
-- The files that the agent's `read_config` of src/VMCT/src/vmct_conf.c reads without a write behind
-- an array.
use vnf_monitoring.Prelude.{
  ℕ, ◌≤◌, ◌≡◌, refl, inl, inr, Bool, true, false, Option, none, some, Option-cases, List, [], ◌∷◌,
  ltb, length, All, arith, Leaves,
}
use vnf_monitoring.Host.Config.{Scan, read_digits}
use vnf_monitoring.Host.Config.Total.{
  IsDefined, IsReadable, words_of, AreReadable, have_room-AreReadable,
}
use vnf_monitoring.Agent.Report.{max_vm_proc_num}
use vnf_monitoring.Agent.Processes.Lines.{IsName, file_of, read_utm_process_config-file_of}
use vnf_monitoring.Agent.Config.{
  AgentSettings, copy_to, set_number, when_named, agent_gettoken, agent_words, agent_lineparser,
  agent_lines, agent_read_config, initial_settings, ◌>>=◌,
}
use vnf_monitoring.Agent.Config.Laws.{
  IsSaneAgent, agent_lines-IsSaneAgent, initial_settings-IsSaneAgent,
}

bind-IsDefined :
    {A B : Type 0} (x : Option A) (f : A → Option B)
    → IsDefined x
    → ((a : A) → IsDefined (f a))
    → IsDefined (x >>= f)
bind-IsDefined none f (a, e) h = absurd (ground (arith, e))
bind-IsDefined (some a) f d h = h a

when_named-IsDefined :
    (b : Bool) (changed : Option AgentSettings) (c : AgentSettings)
    → IsDefined changed
    → IsDefined (when_named b changed c)
unfolding when_named
when_named-IsDefined true changed c d = d
when_named-IsDefined false changed c d = (c, refl)

copy_to-IsDefined :
    (n : ℕ) (sc : Scan) (value : List ℕ) (c : AgentSettings)
    → 32 ≤ n
    → IsReadable sc value
    → IsDefined (copy_to n value c)
unfolding copy_to
copy_to-IsDefined n sc value c big r =
    let room : ltb (length value) n ≡ true = ground (arith, big, r.0) in
    (c, rw (copy_to, room) refl)

set_number-IsDefined :
    (sc : Scan) (value : List ℕ) (f : ℕ → AgentSettings → AgentSettings) (c : AgentSettings)
    → IsReadable sc value
    → IsDefined (set_number sc value f c)
unfolding set_number
set_number-IsDefined sc value f c r = elim (Option-cases (read_digits sc value)) [
  | inl e ↦ (c, rw (set_number, e) refl)
  | inr (none, e) ↦ absurd (r.1 e)
  | inr (some d, e) ↦ (f d c, rw (set_number, e) refl)
]

agent_gettoken-IsDefined :
    (sc : Scan) (name value : List ℕ) (c : AgentSettings)
    → IsReadable sc value
    → IsDefined (agent_gettoken sc name value c)
unfolding agent_gettoken
agent_gettoken-IsDefined sc name value c0 r =
    bind-IsDefined _ _
      (when_named-IsDefined _ _ c0 (copy_to-IsDefined 128 sc value _ (omega arith) r))
      (λ c1.
        bind-IsDefined _ _ (when_named-IsDefined _ _ c1 (set_number-IsDefined sc value _ c1 r))
          (λ c2. bind-IsDefined _ _ (when_named-IsDefined _ _ c2 (_, refl)) (λ c3.
            bind-IsDefined _ _ (when_named-IsDefined _ _ c3 (set_number-IsDefined sc value _ c3 r))
              (λ c4.
                bind-IsDefined _ _
                  (when_named-IsDefined _ _ c4 (set_number-IsDefined sc value _ c4 r))
                  (λ c5.
                    when_named-IsDefined _ _ c5
                      (copy_to-IsDefined 32 sc value _ (omega arith) r))))))

agent_words-IsDefined :
    (sc : Scan) (l : List (List ℕ)) (c : AgentSettings)
    → All (IsReadable sc) l
    → IsDefined (agent_words sc l c)
unfolding agent_words
agent_words-IsDefined sc [] c r = (c, refl)
agent_words-IsDefined sc (a ∷ []) c r = (c, refl)
agent_words-IsDefined sc (a ∷ b ∷ []) c r = (c, refl)
agent_words-IsDefined sc (name ∷ sign ∷ value ∷ []) c (r0, (r1, (r2, u))) =
    agent_gettoken-IsDefined sc name value c r2
agent_words-IsDefined sc (a ∷ b ∷ d ∷ e ∷ l) c r = (c, refl)

agent_lines-IsDefined :
    (sc : Scan) (lines : List (List ℕ)) (c : AgentSettings)
    → AreReadable sc lines
    → IsDefined (agent_lines sc lines c)
unfolding agent_lines agent_lineparser
agent_lines-IsDefined sc [] c r = (c, refl)
agent_lines-IsDefined sc (line ∷ l) c r =
    bind-IsDefined (agent_lineparser sc line c) (agent_lines sc l)
      (rw (agent_lineparser, have_room-AreReadable sc (words_of line) r.0)
        (agent_words-IsDefined sc (words_of line) c r.0))
      (λ d. agent_lines-IsDefined sc l d r.1)

-- Where each of the words of the configuration file has at most 31 bytes and `sscanf` reads a number
-- from each that `Isdigit` accepts, and the other file has a name on each of at most 12 lines, the
-- agent's `read_config` comes to its end without a write behind an array: it leaves these names, in
-- their order, and of the settings of `InitVariable` settings in which the interval of the reports is
-- 0 or one of 5, 10, 20, 30 and 60, the type of the machine at most 3, the host server's port below
-- 65536 and the same in the link, and the two texts have room for their ends.
pub agent_read_config_total :
    (sc : Scan) (lines names : List (List ℕ))
    → AreReadable sc lines
    → All IsName names
    → length names ≤ max_vm_proc_num
    → (d : AgentSettings) × (agent_read_config sc lines (file_of names) initial_settings
        ≡ some (d, names))
      × IsSaneAgent d
unfolding agent_read_config
agent_read_config_total sc lines names r are room =
    let (d, e) = agent_lines-IsDefined sc lines initial_settings r in
    let sane : Leaves IsSaneAgent (some d) =
      rw e at (agent_lines-IsSaneAgent sc lines initial_settings initial_settings-IsSaneAgent) in
    (d, rw (agent_read_config, e, read_utm_process_config-file_of names are room) refl, sane)

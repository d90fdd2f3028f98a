-- ===== src/Agent/Config/Laws.antt =====
-- What the agent's configuration satisfies when it is read without a write behind an array.
use vnf_monitoring.Prelude.{
  ℕ, ◌≤◌, ◌<◌, ◌≡◌, refl, ◌⊎◌, inl, inr, Bool, Bool-cases, true, false, ◌%◌, ◌^◌, Option,
  Option-cases, none, some, List, [], ◌∷◌, ltb, length, arith, Leaves, take,
}
use vnf_monitoring.Agent.Config.{
  AgentSettings, type_of, copy_to, set_number, when_named, agent_gettoken, agent_words,
  agent_lineparser, agent_lines, initial_settings, ◌>>=◌,
}
use vnf_monitoring.Host.Config.{Scan, read_digits, words_from, before_comment, have_room}
use vnf_monitoring.Host.Config.Laws.{IsInterval, interval-IsInterval}

-- The type is known or was never set, the interval is one of five or was never set, the link has the
-- port of the host server, which is a port, and the texts fit their arrays with their ends.
pub record IsSaneAgent (c : AgentSettings) : Type 0 where
  pub due : (c.vmstate_sendtime ≡ 0) ⊎ IsInterval c.vmstate_sendtime
  pub typed : c.vm_type ≤ 3
  pub ported : c.host_port < 2 ^ 16
  pub linked : c.link_port ≡ c.host_port
  pub address : length c.link_addr < 128
  pub managed : length c.manage_hostip < 32

type_of-known : (d : ℕ) → type_of d ≤ 3
unfolding type_of
type_of-known d = ground arith

port-bound : (d : ℕ) → d % 2 ^ 16 < 2 ^ 16
port-bound d = omega arith

bind-Leaves :
    {A B : Type 0} (P : A → Type 0) (Q : B → Type 0) (x : Option A) (f : A → Option B)
    → Leaves P x
    → ((a : A) → P a → Leaves Q (f a))
    → Leaves Q (x >>= f)
bind-Leaves P Q none f l h = tt
bind-Leaves P Q (some a) f l h = h a l

when_named-IsSane :
    (b : Bool) (changed : Option AgentSettings) (c : AgentSettings)
    → Leaves IsSaneAgent changed
    → IsSaneAgent c
    → Leaves IsSaneAgent (when_named b changed c)
unfolding when_named
when_named-IsSane true changed c l s = l
when_named-IsSane false changed c l s = s

copy_to-IsSane :
    (n : ℕ) (value : List ℕ) (c : AgentSettings)
    → (length value < n → IsSaneAgent c)
    → Leaves IsSaneAgent (copy_to n value c)
unfolding copy_to
copy_to-IsSane n value c h = elim (Bool-cases (ltb (length value) n)) [
  | inl e ↦ rw (Leaves, copy_to, e) (h (ground (arith, e)))
  | inr e ↦ rw (Leaves, copy_to, e) tt
]

set_number-IsSane :
    (sc : Scan) (value : List ℕ) (f : ℕ → AgentSettings → AgentSettings) (c : AgentSettings)
    → IsSaneAgent c
    → ((d : ℕ) → IsSaneAgent (f d c))
    → Leaves IsSaneAgent (set_number sc value f c)
unfolding set_number
set_number-IsSane sc value f c s h = elim (Option-cases (read_digits sc value)) [
  | inl e ↦ rw (Leaves, set_number, e) s
  | inr (none, e) ↦ rw (Leaves, set_number, e) tt
  | inr (some d, e) ↦ rw (Leaves, set_number, e) (h d)
]

-- What the agent's `Gettoken` leaves is sane when what it finds is, for any name and value: the
-- interval is 0 or one of 5, 10, 20, 30 and 60, the type at most 3, the port below 65536 and the
-- same in the link, and the two texts fit their arrays with their ends.
pub agent_gettoken-IsSaneAgent :
    (sc : Scan) (name value : List ℕ) (c : AgentSettings)
    → IsSaneAgent c
    → Leaves IsSaneAgent (agent_gettoken sc name value c)
unfolding agent_gettoken
agent_gettoken-IsSaneAgent sc name value c0 s0 =
    bind-Leaves IsSaneAgent IsSaneAgent _ _
      (when_named-IsSane _ _ c0
        (copy_to-IsSane 128 value _ (λ h. record {
          due = s0.due;
          typed = s0.typed;
          ported = s0.ported;
          linked = s0.linked;
          address = h;
          managed = s0.managed;
        }))
        s0)
      (λ c1 s1.
        bind-Leaves IsSaneAgent IsSaneAgent _ _
          (when_named-IsSane _ _ c1
            (set_number-IsSane sc value _ c1 s1 (λ d. record {
              due = s1.due;
              typed = s1.typed;
              ported = port-bound d;
              linked = refl;
              address = s1.address;
              managed = s1.managed;
            }))
            s1)
          (λ c2 s2.
            bind-Leaves IsSaneAgent IsSaneAgent _ _
              (when_named-IsSane _ _ c2
                (record {
                  due = s2.due;
                  typed = s2.typed;
                  ported = s2.ported;
                  linked = s2.linked;
                  address = s2.address;
                  managed = s2.managed;
                })
                s2)
              (λ c3 s3.
                bind-Leaves IsSaneAgent IsSaneAgent _ _
                  (when_named-IsSane _ _ c3
                    (set_number-IsSane sc value _ c3 s3 (λ d. record {
                      due = inr (interval-IsInterval d);
                      typed = s3.typed;
                      ported = s3.ported;
                      linked = s3.linked;
                      address = s3.address;
                      managed = s3.managed;
                    }))
                    s3)
                  (λ c4 s4.
                    bind-Leaves IsSaneAgent IsSaneAgent _ _
                      (when_named-IsSane _ _ c4
                        (set_number-IsSane sc value _ c4 s4 (λ d. record {
                          due = s4.due;
                          typed = type_of-known d;
                          ported = s4.ported;
                          linked = s4.linked;
                          address = s4.address;
                          managed = s4.managed;
                        }))
                        s4)
                      (λ c5 s5.
                        when_named-IsSane _ _ c5
                          (copy_to-IsSane 32 value _ (λ h. record {
                            due = s5.due;
                            typed = s5.typed;
                            ported = s5.ported;
                            linked = s5.linked;
                            address = s5.address;
                            managed = h;
                          }))
                          s5)))))

agent_words-IsSaneAgent :
    (sc : Scan) (l : List (List ℕ)) (c : AgentSettings)
    → IsSaneAgent c
    → Leaves IsSaneAgent (agent_words sc l c)
unfolding agent_words
agent_words-IsSaneAgent sc [] c s = s
agent_words-IsSaneAgent sc (a ∷ []) c s = s
agent_words-IsSaneAgent sc (a ∷ b ∷ []) c s = s
agent_words-IsSaneAgent sc (name ∷ sign ∷ value ∷ []) c s =
    agent_gettoken-IsSaneAgent sc name value c s
agent_words-IsSaneAgent sc (a ∷ b ∷ d ∷ e ∷ l) c s = s

agent_lineparser-IsSaneAgent :
    (sc : Scan) (line : List ℕ) (c : AgentSettings)
    → IsSaneAgent c
    → Leaves IsSaneAgent (agent_lineparser sc line c)
unfolding agent_lineparser
agent_lineparser-IsSaneAgent sc line c s =
    let words = take 5 (words_from [] (before_comment line)) in
    elim (Bool-cases (have_room words)) [
      | inr e ↦ rw (Leaves, agent_lineparser, e) tt
      | inl e ↦ rw (agent_lineparser, e) (agent_words-IsSaneAgent sc words c s)
    ]

pub agent_lines-IsSaneAgent :
    (sc : Scan) (lines : List (List ℕ)) (c : AgentSettings)
    → IsSaneAgent c
    → Leaves IsSaneAgent (agent_lines sc lines c)
unfolding agent_lines
agent_lines-IsSaneAgent sc [] c s = s
agent_lines-IsSaneAgent sc (line ∷ l) c s =
    bind-Leaves IsSaneAgent IsSaneAgent (agent_lineparser sc line c) (agent_lines sc l)
      (agent_lineparser-IsSaneAgent sc line c s) (λ d t. agent_lines-IsSaneAgent sc l d t)

pub initial_settings-IsSaneAgent : IsSaneAgent initial_settings
unfolding vnf_monitoring.Prelude.codes
initial_settings-IsSaneAgent = record {
  due = inl refl;
  typed = omega arith;
  ported = omega arith;
  linked = refl;
  address = omega arith;
  managed = omega arith;
}

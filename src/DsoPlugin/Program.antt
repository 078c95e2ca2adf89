-- ===== src/DsoPlugin/Program.antt =====
-- dso/test/main.c and dso/test/plugin.c: a program that loads a plugin and calls it. A library's function is what
-- stands at the address that `dlsym` gives.
mod Samples
use Prim.Native.String.{String}
use divers.Base.{
  ℕ, ◌≡◌, ◌≢◌, refl, true, ◌||◌, Bool-cases, sym, ap, ◌∙◌, inl, inr, ◌⊎◌, Option, none, some, List,
  [], ◌∷◌, ◌==◌, ==_iff, if◌then◌else◌,
}
use divers.Resources.{Held, handle, ◌>>=◌}
use divers.DsoPlugin.{Plugin, init, exit, get_entry, IsInit, init-IsInit}

-- `func`, by the line that it prints: "hello plugin = " and its argument.
pub record Line : Type 0 where
  pub hello_plugin : String

unfoldable pub func : String → Line
func p = record { hello_plugin = p }

-- `struct plugin_test`, with its one member, and `get_plugintest`.
pub record PluginTest : Type 0 where
  pub display : String → Line

unfoldable pub get_plugintest : PluginTest
unfolding func
get_plugintest = record { display = func }

-- What `main` prints, and what is held behind it. `at ptr` is what `ptr()` returns; a call through an address with no
-- function is a fault.
abbrev with_held : List Line → Held → Option (List Line × Held)
with_held out held = some (out, held)

unfoldable pub main :
    (dlopen : ℕ → ℕ) (dlsym : ℕ → ℕ → ℕ) (at : ℕ → Option PluginTest) (file ent : ℕ)
    → Plugin
    → Held
    → Option (List Line × Held)
main dlopen dlsym at file ent plugin held =
    init dlopen dlsym file ent plugin held >>= λ (r : ℕ × Plugin × Held).
    if r.0 == 0
    then (at (get_entry r.1) >>= λ (test : PluginTest).
        exit r.1 r.2 >>= λ h. with_held (test.display "main.c" ∷ []) h)
    else with_held [] r.2

missing : (file ent : ℕ) → ((file == 0) || (ent == 0)) ≡ true → (file ≡ 0) ⊎ (ent ≡ 0)
missing file ent t = elim (Bool-cases (file == 0)) [
  | inl z ↦ inl ((==_iff file 0).0 z)
  | inr f ↦ inr ((==_iff ent 0).0 (rw f at t))
]

-- If what the library exports under the name is `get_plugintest`, the program ends and holds what it held before; it
-- prints the plugin's line, with the name of its own source, or nothing when the library or the name is not found.
pub main-lines :
    (dlopen : ℕ → ℕ) (dlsym : ℕ → ℕ → ℕ) (at : ℕ → Option PluginTest) (file ent : ℕ)
    (plugin : Plugin) (held : Held)
    → (dlsym (dlopen file) ent ≢ 0 → at (dlsym (dlopen file) ent) ≡ some get_plugintest)
    → (main dlopen dlsym at file ent plugin held ≡ some (func "main.c" ∷ [], held))
      ⊎ ((main dlopen dlsym at file ent plugin held ≡ some ([], held))
          × ((file ≡ 0) ⊎ (ent ≡ 0) ⊎ (dlopen file ≡ 0) ⊎ (dlsym (dlopen file) ent ≡ 0)))
unfolding main get_plugintest
main-lines dlopen dlsym at file ent plugin held exports =
    by_init (init dlopen dlsym file ent plugin held) refl
      (init-IsInit dlopen dlsym file ent plugin held)
  where
    reason :
        (((file == 0) || (ent == 0)) ≡ true) ⊎ (dlopen file ≡ 0) ⊎ (dlsym (dlopen file) ent ≡ 0)
        → (file ≡ 0) ⊎ (ent ≡ 0) ⊎ (dlopen file ≡ 0) ⊎ (dlsym (dlopen file) ent ≡ 0)
    reason (inl t) = elim (missing file ent t) [ inl z ↦ inl z | inr z ↦ inr (inl z) ]
    reason (inr w) = inr (inr w)

    by_init :
        (o : Option (ℕ × Plugin × Held))
        → init dlopen dlsym file ent plugin held ≡ o
        → IsInit dlopen dlsym file ent held o
        → (main dlopen dlsym at file ent plugin held ≡ some (func "main.c" ∷ [], held))
          ⊎ ((main dlopen dlsym at file ent plugin held ≡ some ([], held))
              × ((file ≡ 0) ⊎ (ent ≡ 0) ⊎ (dlopen file ≡ 0) ⊎ (dlsym (dlopen file) ent ≡ 0)))
    by_init none e i = absurd i
    by_init (some (ret, p, h)) e (inl (z, _, g, nz, _, x)) =
        let found : at (get_entry p) ≡ some get_plugintest = ap at g ∙ exports (λ q. nz (g ∙ q)) in
        inl (simp (e, (==_iff ret 0).1 z, found, x) refl)
    by_init (some (ret, p, h)) e (inr (o, k, why)) =
        inr (simp (e, o) (ap (λ b. some ([], b)) k), reason why)

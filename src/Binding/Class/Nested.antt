-- ===== src/Binding/Class/Nested.antt =====
-- class_init of include/sciforge/binding/class.hpp where Python code that runs within a construction, in a
-- caster or in the factory, constructs the same instance.
use sciforge.Base.{ℕ, ◌≡◌, refl, ◌∙◌, List, true, none, some}
use sciforge.Base.Int.{pos}
use sciforge.Cpp.{ok}
use sciforge.Binding.Python.{Ptr, World, ◌>>=◌}
use sciforge.Binding.Dispatch.{extract}
use sciforge.Binding.Keywords.{KwSpec, Parser, filled, fill_defaults}
use sciforge.Binding.Class.{Instances, hold, Factory, class_init}
use sciforge.Binding.Class.Init.{class_init_new}

-- Where a construction of an instance within another one of it leaves it the value `a`, the outer one,
-- which makes `b`, gives 0 too, and `b` replaces `a`.
class_init_replaces :
    {V T Call : Type 0} (error_type : Ptr) (parse : Parser Call) (f : Factory V T) (spec : KwSpec)
    (I : Instances T) (self : ℕ) (a b : T) (call : Call) (w w' v : World) (objs : List Ptr)
    (os : List ℕ)
    → I.held self ≡ none
    → parse spec.format spec.kwlist call w ≡ (some objs, w')
    → fill_defaults objs spec.defaults ≡ filled os
    → (extract f.casters os >>= f.make) w' ≡ (ok b, v)
    → f.within os w' I ≡ hold self a I
    → class_init error_type true parse f spec I self call w
      ≡ (pos 0, hold self b (hold self a I), v)
class_init_replaces error_type parse f spec I self a b call w w' v objs os n parsed completed makes
      inner =
    class_init_new error_type true parse f spec I self call w n
    ∙ rw (parsed, completed, makes, inner) refl

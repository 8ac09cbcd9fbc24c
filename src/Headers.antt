-- ===== src/Headers.antt =====
-- magicdict.TolerantMagicDict, a package that the source only calls: its operations are a
-- parameter. Names are compared without regard to case there.
use hiyori.Prelude.{Bool, Option, List, Str}

pub record HeaderDict (H : Type 0) : Type 0 where
  -- TolerantMagicDict(mapping)
  pub from_items : List (Str × Str) → H
  pub items : H → List (Str × Str)
  -- `name in d.keys()`
  pub contains : Str → H → Bool
  -- `d[name]`, where `none` stands for KeyError
  pub get? : Str → H → Option Str
  -- `d[name] = value`
  pub set : Str → Str → H → H
  -- `d.setdefault(name, value)`
  pub setdefault : Str → Str → H → H
  -- `d.update(pairs)`
  pub update : List (Str × Str) → H → H

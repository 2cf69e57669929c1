-- ===== src/Tests.antt =====
-- Runs at concrete inputs, and the theorems applied to them.
mod Parser
mod Json
mod Routing
mod Orders
mod Dto
mod Server
mod Service
mod System
mod Whole
mod Client
mod Database
mod Messages

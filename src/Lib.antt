-- ===== src/Lib.antt =====
-- SkillHunt connects freelances, recruiters and admins. This library models the services of its
-- NestJS backend, backend-core/src, which keep users and gear in PostgreSQL through TypeORM, and
-- tokens, counters and business events in Redis.
--
-- Enums and Entities hold the data of common/enums.ts and of the entities. Store and Redis are
-- interfaces to what is not part of the repository: the calls that the services make, a view of the
-- stored rows or values, and the documented behaviour of the calls as laws. Store.Table and
-- Redis.Memory fill them, on which the tests run. External does the same for the packages that the
-- identity services call (jsonwebtoken, argon2, otplib, Node's crypto), filled by External.Plain.
--
-- A service method is a function of its arguments and of the shared state, to a result and the
-- state it leaves (`Exec` of Common.Http): a thrown HTTP exception is the result `err`, and what was
-- written before it stays written. Method names are the code's in snake case.
-- - Events: common/events/event-publisher.service.ts.
-- - Gear: gear/gear.service.ts; Gear.Showcase states the rules of the showcase, Gear.Requests runs
--   sequences of requests, Gear.Races two requests to the showcase at once, Gear.Controller is
--   gear/gear.controller.ts, Gear.Review and Gear.Listing are about one handler each,
--   Gear.Decided about a review and the requests that follow it.
-- - Auth.TokenStore: auth/token-store.service.ts. Auth.TwoFactor: auth/two-factor.service.ts.
--   Auth.Service: auth/auth.service.ts, which calls both. Auth.Guards: auth/guards/jwt-auth.guard.ts,
--   which stands before the routes of every service. Auth.Controller: auth/auth.controller.ts and
--   auth/refresh-cookie.ts; Auth.Controller.TwoFactor: auth/two-factor.controller.ts.
--   Auth.SecretCrypto: auth/two-factor-crypto.ts, whose box the services take as a parameter.
--   Auth.Session is the state they share: the users' table, Redis, the clock in seconds and the
--   number of random draws, which stand for the randomness of the code.
-- - Certifications: certifications/certification.service.ts, over the store of Storage
--   (storage/storage.service.ts), which Storage.Fake fills (storage/fake-storage.service.ts).
--   Certifications.Controller is certifications/certification.controller.ts.
-- - Matching: matching/matching.service.ts, the proxy to the Python matching service.
-- - Chat: chat/chat.service.ts and, in Chat.Gateway and Chat.Controller,
--   chat/chat.gateway.ts and chat/chat.controller.ts. Its collection of MongoDB is a `Repository`
--   like the tables.
-- - Web: frontend-web/src. Web.Token and Web.Session are features/auth/token.ts and session-store.ts;
--   Web.Requests is api/auth-interceptors.ts, whose `Tab` has the requests on their way and the
--   rotation that they share. Web.Provider is features/auth/AuthProvider.tsx and ProtectedRoute.tsx,
--   Web.Thread features/chat/useChatThread.ts, Web.Unread features/navigation/useUnreadMessages.ts.
--   Web.Forms has the submissions of the pages AddGear, Login, Register and MessageThread, and
--   Web.Armurerie the selections of the page of a locker. Web.Search is pages/Search.tsx and
--   features/matching/SearchFilters.tsx, Web.TwoFactor features/auth/TwoFactorSettings.tsx.
-- - Platform: common/cors.ts and, of observability, the request id, the readiness probe and the label
--   of a route in the metrics.
-- - Gamification: gamification/gamification.service.ts, which reads the tables of the others.
--
-- Every loop of the code runs over a list, so that all functions are structural and no fuel is
-- needed: the schedule of Web.Requests.Ending counts down the work of a tab, which it proves to
-- be enough. A numeric id, a page or a time is a natural number; coordinates are integers. A
-- failure of Redis is an answer that its calls may give at any time. Its keys expire: `wait` lets
-- seconds pass between the calls, and a key is gone when its time to live is over; the time that
-- a single request takes is not counted. Two pages of a listing may rank rows that its order does
-- not tell apart in different ways. Failures of PostgreSQL are not modelled, nor is the
-- interleaving of two requests at the server but for those of Gear.Races: a request runs to its
-- end before the next begins. In a tab and in the chat's gateway, events come in any order. The
-- validation of request bodies by decorators, the other controllers' routes, logs and metrics are
-- not modelled, nor are the views of the frontend, the gateway and the Python matching service.
pub mod Common
pub mod Enums
pub mod Entities
pub mod Store
pub mod Redis
pub mod Events
pub mod External
pub mod Gear
pub mod Auth
pub mod Certifications
pub mod Chat
pub mod Gamification
pub mod Matching
pub mod Platform
pub mod Storage
pub mod Web
